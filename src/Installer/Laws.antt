-- ===== src/Installer/Laws.antt =====
-- When installer/main.c says that the installation is complete.
use platform_bootable_iago.Base.{
  ℕ, ◌+◌, ◌≡◌, refl, ap, ◌∙◌, Bool, true, false, ◌||◌, List, [], ◌∷◌, ◌++◌, Option, none, some,
  if◌then◌else◌, length,
}
use platform_bootable_iago.Installer.{
  preparing, executing, complete, Event, state_is, progress_is, prepares, asks, executes, Plugin,
  Run, after, followed_by, call, prepare_from, ask_from, preparation_phase, cli_phase, execute_from,
  execution_phase, install,
}

-- Whether an event says that the installation is complete.
abbrev pub says_complete : Event → Bool
says_complete (state_is preparing) = false
says_complete (state_is executing) = false
says_complete (state_is complete) = true
says_complete (progress_is n) = false
says_complete (prepares i) = false
says_complete (asks i) = false
says_complete (executes i) = false

abbrev pub announces : List Event → Bool
announces [] = false
announces (e ∷ es) = says_complete e || announces es

abbrev pub survives {ℓ} : {S : Type ℓ} → Option S → Bool
survives none = false
survives (some s) = true

announces-append : (es fs : List Event) → announces (es ++ fs) ≡ (announces es || announces fs)
announces-append [] fs = refl
announces-append (e ∷ es) fs = go (says_complete e) (announces-append es fs)
  where
    go :
        (b : Bool)
        → announces (es ++ fs) ≡ (announces es || announces fs)
        → (b || announces (es ++ fs)) ≡ ((b || announces es) || announces fs)
    go true later = refl
    go false later = later

module _ {ℓ} {S : Type ℓ} where
  -- A run that says nothing of the end.
  abbrev Silent : Run S → Type 0
  Silent r = announces r.1 ≡ false

  -- A run that says it is complete exactly where it comes to its end.
  abbrev Honest : Run S → Type 0
  Honest r = announces r.1 ≡ survives r.0

  after-announces :
      (es : List Event) (r : Run S)
      → announces es ≡ false
      → announces (after es r).1 ≡ announces r.1
  after-announces es r quiet = announces-append es r.1 ∙ ap (λ b. b || announces r.1) quiet

  followed_by-Honest :
      (r : Run S) (next : S → Run S)
      → Silent r
      → ((s : S) → Honest (next s))
      → Honest (followed_by r next)
  followed_by-Honest (none, es) next quiet honest = quiet
  followed_by-Honest (some s, es) next quiet honest = after-announces es (next s) quiet ∙ honest s

  followed_by-Silent :
      (r : Run S) (next : S → Run S)
      → Silent r
      → ((s : S) → Silent (next s))
      → Silent (followed_by r next)
  followed_by-Silent (none, es) next quiet silent = quiet
  followed_by-Silent (some s, es) next quiet silent = after-announces es (next s) quiet ∙ silent s

  call-Silent :
      (f : Option (S → Option S)) (e : Event) (s : S)
      → says_complete e ≡ false
      → Silent (call f e s)
  call-Silent none e s quiet = refl
  call-Silent (some f) e s quiet = ap (λ b. b || false) quiet

  prepare_from-Silent : (i : ℕ) (ps : List (Plugin S)) (s : S) → Silent (prepare_from i ps s)
  unfolding prepare_from
  prepare_from-Silent i [] s = refl
  prepare_from-Silent i (p ∷ ps) s =
      followed_by-Silent (call p.prepare (prepares i) s) (prepare_from (i + 1) ps)
        (call-Silent p.prepare (prepares i) s refl) (prepare_from-Silent (i + 1) ps)

  ask_from-Silent : (i : ℕ) (ps : List (Plugin S)) (s : S) → Silent (ask_from i ps s)
  unfolding ask_from
  ask_from-Silent i [] s = refl
  ask_from-Silent i (p ∷ ps) s =
      followed_by-Silent (call p.cli_session (asks i) s) (ask_from (i + 1) ps)
        (call-Silent p.cli_session (asks i) s refl) (ask_from-Silent (i + 1) ps)

  module _ (percent : ℕ → ℕ → ℕ) where
    execute_from-Honest :
        (count i : ℕ) (ps : List (Plugin S)) (s : S) → Honest (execute_from percent count i ps s)
    unfolding execute_from
    execute_from-Honest count i [] s = refl
    execute_from-Honest count i (p ∷ ps) s =
        after-announces (progress_is (percent count i) ∷ [])
          (followed_by (call p.execute (executes i) s) (execute_from percent count (i + 1) ps)) refl
        ∙ followed_by-Honest (call p.execute (executes i) s) (execute_from percent count (i + 1) ps)
            (call-Silent p.execute (executes i) s refl) (execute_from-Honest count (i + 1) ps)

    execution_phase-Honest : (ps : List (Plugin S)) (s : S) → Honest (execution_phase percent ps s)
    unfolding execution_phase
    execution_phase-Honest ps s = execute_from-Honest (length ps) 0 ps s

    -- Whatever the plugins do, and in every mode, the installer sets its state to "complete" exactly
    -- where it comes to the end of its execution phase: not where a plugin, or the graphical mode,
    -- ends the program before.
    pub install-announces :
        (cli_mode gui_mode : Bool) (plugins : List (Plugin S)) (s : S)
        → announces (install percent cli_mode gui_mode plugins s).1
          ≡ survives (install percent cli_mode gui_mode plugins s).0
    unfolding install preparation_phase cli_phase
    install-announces cli_mode gui_mode plugins s =
        followed_by-Honest (preparation_phase plugins s) _ (prepare_from-Silent 0 plugins s)
          (go cli_mode gui_mode)
      where
        go :
            (cli gui : Bool) (s1 : S)
            → Honest (
                if cli
                then followed_by (cli_phase plugins s1) (execution_phase percent plugins)
                else if gui
                then (none, [])
                else execution_phase percent plugins s1)
        go true gui s1 =
            followed_by-Honest (cli_phase plugins s1) (execution_phase percent plugins)
              (ask_from-Silent 0 plugins s1) (execution_phase-Honest plugins)
        go false true s1 = refl
        go false false s1 = execution_phase-Honest plugins s1
