-- ===== src/Installer.antt =====
-- The installer's main program, installer/main.c: the plugins, and the phases that call them. The
-- state that the plugins share is a parameter; `none` is the end of the program by `die`. The
-- floating-point product that gives the progress is a parameter too.
pub mod Laws
mod Tests
use platform_bootable_iago.Base.{
  ℕ, ◌+◌, Bool, true, false, List, [], ◌∷◌, ◌++◌, Option, none, some, if◌then◌else◌, length,
}

-- The values of the property "iago.state".
pub data Phase : Type 0 where
  preparing executing complete : Phase

-- What can be seen of a run: the properties that it sets, and the calls of the plugin number so
-- and so.
pub data Event : Type 0 where
  state_is : Phase → Event
  progress_is : ℕ → Event
  prepares asks executes : ℕ → Event

-- `struct iago_plugin`: a callback that is NULL is `none`.
pub record Plugin {ℓ} (S : Type ℓ) : Type ℓ where
  pub prepare : Option (S → Option S)
  pub cli_session : Option (S → Option S)
  pub execute : Option (S → Option S)

-- The state behind a run, and its events in order.
abbrev pub Run {ℓ} : Type ℓ → Type ℓ
Run S = Option S × List Event

module _ {ℓ} {S : Type ℓ} where
  -- Events before those of a run.
  abbrev pub after : List Event → Run S → Run S
  after es r = (r.0, es ++ r.1)

  -- What follows a run that has not ended the program.
  abbrev pub resume : Option S → List Event → (S → Run S) → Run S
  resume none es next = (none, es)
  resume (some s) es next = after es (next s)

  abbrev pub followed_by : Run S → (S → Run S) → Run S
  followed_by r next = resume r.0 r.1 next

  -- A callback, with the event of its call.
  abbrev pub call : Option (S → Option S) → Event → S → Run S
  call none e s = (some s, [])
  call (some f) e s = (f s, e ∷ [])

  -- The loops of `preparation_phase` and `cli_phase`, from plugin `i` on.
  unfoldable pub prepare_from : ℕ → List (Plugin S) → S → Run S
  prepare_from i [] s = (some s, [])
  prepare_from i (p ∷ ps) s = followed_by (call p.prepare (prepares i) s) (prepare_from (i + 1) ps)

  unfoldable pub ask_from : ℕ → List (Plugin S) → S → Run S
  ask_from i [] s = (some s, [])
  ask_from i (p ∷ ps) s = followed_by (call p.cli_session (asks i) s) (ask_from (i + 1) ps)

  unfoldable pub preparation_phase : List (Plugin S) → S → Run S
  preparation_phase plugins s = after (state_is preparing ∷ []) (prepare_from 0 plugins s)

  unfoldable pub cli_phase : List (Plugin S) → S → Run S
  cli_phase plugins s = ask_from 0 plugins s

  module _ (percent : ℕ → ℕ → ℕ) where
    -- The loop of `execution_phase`; `count` is the number of plugins.
    unfoldable pub execute_from : ℕ → ℕ → List (Plugin S) → S → Run S
    execute_from count i [] s = (some s, state_is complete ∷ [])
    execute_from count i (p ∷ ps) s =
        after (progress_is (percent count i) ∷ [])
          (followed_by (call p.execute (executes i) s) (execute_from count (i + 1) ps))

    unfoldable pub execution_phase : List (Plugin S) → S → Run S
    execution_phase plugins s =
        after (state_is executing ∷ []) (execute_from (length plugins) 0 plugins s)

    -- The order in which `main` adds the plugins; the board's are in the middle.
    unfoldable pub plugin_list :
        Plugin S → Plugin S → Plugin S → List (Plugin S) → Plugin S → List (Plugin S)
    plugin_list partitioner imagewriter ota registered finalizer =
        partitioner ∷ imagewriter ∷ ota ∷ (registered ++ (finalizer ∷ []))

    -- `main` once the options are loaded: the plain mode, the mode with the command line, and the
    -- graphical mode, which is not there.
    unfoldable pub install : Bool → Bool → List (Plugin S) → S → Run S
    install cli_mode gui_mode plugins s = followed_by (preparation_phase plugins s) (λ s1.
        if cli_mode
        then followed_by (cli_phase plugins s1) (execution_phase plugins)
        else if gui_mode
        then (none, [])
        else execution_phase plugins s1)
