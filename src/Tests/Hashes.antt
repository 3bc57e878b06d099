-- ===== src/Tests/Hashes.antt =====
-- Runs of Hash of src/util/hash.cc, and its theorems at concrete inputs.
use distributed_kvstorage.Hash.Laws.{hash-seed_injective}
use distributed_kvstorage.Common.{ℕ, none, ◌++◌, List, [], ◌∷◌, ◌≡◌, refl, some, arith}
use distributed_kvstorage.Coding.{decode_fixed32}
use distributed_kvstorage.Hash.{hash, mix_words, mix_rest, case_one, case_two, case_three}
use distributed_kvstorage.Hash.Laws.{hash-mix_all, hash-group_injective}

hash_nothing : hash [] 0 0xbc9f1d34 ≡ some 0xbc9f1d34
unfolding hash mix_words mix_rest
hash_nothing = refl

hash_one : hash (0x62 ∷ []) 1 0xbc9f1d34 ≡ some 0xef1345c4
unfolding hash mix_words mix_rest case_one
hash_one = refl

hash_two : hash (0xc3 ∷ 0x97 ∷ []) 2 0xbc9f1d34 ≡ some 0x5b663814
unfolding hash mix_words mix_rest case_one case_two
hash_two = refl

hash_three : hash (0xe2 ∷ 0x99 ∷ 0xa5 ∷ []) 3 0xbc9f1d34 ≡ some 0x323c078f
unfolding hash mix_words mix_rest case_one case_two case_three
hash_three = refl

abbrev word : List ℕ
word = 0xe1 ∷ 0x80 ∷ 0xb9 ∷ 0x32 ∷ []

hash-mix_all_example : hash (word ++ (7 ∷ [])) 4 0xbc9f1d34 ≡ some 0xed21633a
hash-mix_all_example = hash-mix_all word (7 ∷ []) 0xbc9f1d34 (omega arith) (omega arith)

hash_short : hash (1 ∷ []) 4 0 ≡ none
unfolding hash mix_words mix_rest decode_fixed32
hash_short = refl

hash-group_injective_example : word ≡ word
hash-group_injective_example =
    hash-group_injective [] word word (5 ∷ []) 17 (omega arith) (omega arith) (omega arith) refl
      refl refl refl

hash-seed_injective_example : ◌≡◌ {A = ℕ} 17 17
hash-seed_injective_example =
    hash-seed_injective word 17 17 (omega arith) (omega arith) (omega arith) refl
