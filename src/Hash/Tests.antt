-- ===== src/Hash/Tests.antt =====
-- Runs of the hashes, and the theorem at a key.
use rcsw.Base.{ℕ, ◌≡◌, refl, List, [], ◌∷◌, done, load}
use rcsw.Hash.{fnv1a_loop, hash_fnv1a, djb_loop, hash_djb}

abbrev letters : List ℕ
letters = 102 ∷ 111 ∷ 111 ∷ []

-- The published value of the 32 bit FNV-1a hash of `foo`.
hash_fnv1a-letters : hash_fnv1a letters 3 ≡ done 0xa9f3_7ed7
unfolding hash_fnv1a fnv1a_loop load
hash_fnv1a-letters = refl

hash_djb-letters : hash_djb letters 3 ≡ done 193491849
unfolding hash_djb djb_loop load
hash_djb-letters = refl
