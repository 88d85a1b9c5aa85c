-- ===== src/Allocm/Tests.antt =====
-- Runs of the allocation map, and the probe at a map with one free entry.
use rcsw.Base.{ℕ, ◌≡◌, refl, Option, none, some, List, [], ◌∷◌, arith, done, load, store, Ends}
use rcsw.Allocm.{init_entries, allocm_init, probe_loop, allocm_probe}
use rcsw.Allocm.Probe.{Probed, allocm_probe-Probed}

abbrev entries : List (Option ℕ)
entries = some 0 ∷ none ∷ some 0 ∷ some 0 ∷ []

allocm_init-entries : allocm_init entries 3 ≡ done (none ∷ none ∷ none ∷ some 0 ∷ [])
unfolding allocm_init init_entries store
allocm_init-entries = refl

-- Round the end, and a map that is full.
allocm_probe-round :
    (allocm_probe entries 4 2 ≡ done (some 1))
    × (allocm_probe (some 0 ∷ some 0 ∷ []) 2 1 ≡ done none)
unfolding allocm_probe probe_loop load
allocm_probe-round = (refl, refl)

allocm_probe-Probed_example : Ends (Probed entries 4 2) (allocm_probe entries 4 2)
allocm_probe-Probed_example = allocm_probe-Probed entries 4 2 (omega arith) (omega arith)
