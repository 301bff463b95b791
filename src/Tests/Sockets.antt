-- ===== src/Tests/Sockets.antt =====
-- The library of sa-wrapper/ with two sockets that launchd passed on.
use relaunchd.Prelude.{
  ℕ, zero, suc, ◌+◌, ◌<◌, ◌≡◌, refl, true, none, some, List, [], ◌∷◌, Option, arith,
}
use relaunchd.Prelude.Int.{ℤ, pos}
use relaunchd.Prelude.Text.{codes}
use relaunchd.Wrapper.{SockInfo, World, ready, wrapper_init, strtoul, fill, describe}
use relaunchd.Wrapper.Decimal.{decimal, decimal_from}
use relaunchd.Wrapper.Inherited.{Passes, Serves, wrapper_init-Serves}

abbrev ports : ℤ → Option ℕ
ports (pos (suc (suc (suc zero)))) = some 8088
ports (pos (suc (suc (suc (suc zero))))) = some 80
ports fd = none

abbrev world : World
world = record {
  dlopen_succeeds = true;
  dlsym_succeeds = true;
  listen_fds = some (codes "2");
  calloc_succeeds = λ n. true;
  malloc_succeeds = λ i. true;
  fresh_port = λ i. 0;
  getsockname = ports;
}

two_passed : Passes world 2
unfolding decimal decimal_from
two_passed = record {
  opened = refl;
  resolved = refl;
  announced = refl;
  allocated = refl;
  allocated_each = λ i h. refl;
  few = omega arith;
  bound = λ i h.
      elim i as (λ i. i < 2 → (port : ℕ) × (ports (pos (3 + i)) ≡ some port)) [
        | zero ↦ λ h. (8088, refl)
        | suc k ↦ elim k as (λ k. suc k < 2 → (port : ℕ) × (ports (pos (3 + suc k)) ≡ some port)) [
          | zero ↦ λ h. (80, refl)
          | suc j ↦ λ h. absurd (omega (arith, h))
        ]
      ]
        h;
}

wrapper_init-Serves_example :
    (infos : List SockInfo) × (wrapper_init world ≡ ready infos)
    × Serves world 2 (λ call. pos 0) infos
wrapper_init-Serves_example = wrapper_init-Serves world (λ call. pos 0) 2 two_passed

passed_on :
    wrapper_init world
    ≡ ready (record { fd = pos 3; port = 8088 } ∷ record { fd = pos 4; port = 80 } ∷ [])
unfolding wrapper_init strtoul fill describe
passed_on = refl
