-- ===== src/Installer/Tests.antt =====
-- Runs of the model of installer/main.c, and its theorem for plugins that count.
use platform_bootable_iago.Base.{ℕ, ◌+◌, ◌*◌, ◌/◌, ◌≡◌, refl, true, false, [], ◌∷◌, none, some}
use platform_bootable_iago.Installer.{
  preparing, executing, complete, state_is, progress_is, prepares, executes, Plugin, prepare_from,
  ask_from, preparation_phase, cli_phase, execute_from, execution_phase, plugin_list, install,
}
use platform_bootable_iago.Installer.Laws.{announces, survives, install-announces}

abbrev counts : Plugin ℕ
counts = record {
  prepare = some (λ n. some (n + 1));
  cli_session = none;
  execute = some (λ n. some (n + 10));
}

abbrev dies : Plugin ℕ
dies = record counts { execute = some (λ n. none) }

-- The percentage in whole numbers.
abbrev percent : ℕ → ℕ → ℕ
percent count i = 100 * i / count

abbrev idle : Plugin ℕ
idle = record { prepare = none; cli_session = none; execute = none }

good_run : install percent true false (plugin_list percent counts idle idle [] idle) 0 ≡ (
  some 11,
  state_is preparing
      ∷ prepares 0
      ∷ state_is executing
      ∷ progress_is 0
      ∷ executes 0
      ∷ progress_is 25
      ∷ progress_is 50
      ∷ progress_is 75
      ∷ state_is complete
      ∷ [],
)
unfolding install plugin_list preparation_phase prepare_from cli_phase ask_from execution_phase
    execute_from
good_run = refl

install-announces_example :
    announces (install percent false false (counts ∷ dies ∷ []) 0).1
    ≡ survives (install percent false false (counts ∷ dies ∷ []) 0).0
install-announces_example = install-announces percent false false (counts ∷ dies ∷ []) 0
