-- ===== src/Service/Logs.antt =====
-- readFileTail of internal/service/service.go.
use Prim.Native.Nat.{zero}
use zcr521_ai_mcp.Service.TaskCalls.{read_file_tail}
use zcr521_ai_mcp.Common.{
  [], ◌∷◌, ℕ, Text, List, pos, take, length, suc, ◌++◌, ◌≤◌, drop, ◌≡◌, ap, arith, ◌+◌, min, refl,
  ◌-◌, length-drop,
}

take-drop {ℓ} : {A : Type ℓ} (n : ℕ) (xs : List A) → take n xs ++ drop n xs ≡ xs
take-drop zero xs = refl
take-drop (suc n) [] = refl
take-drop (suc n) (x ∷ xs) = ap (λ ys. x ∷ ys) (take-drop n xs)

take_all {ℓ} : {A : Type ℓ} (n : ℕ) (xs : List A) → length xs ≤ n → take n xs ≡ xs
take_all zero [] h = refl
take_all zero (x ∷ xs) h = ground arith
take_all (suc n) [] h = refl
take_all (suc n) (x ∷ xs) h = ap (λ ys. x ∷ ys) (take_all n xs (omega arith))

-- With a limit that is positive, the text that is read is the end of the file, from the offset that
-- is told to the size that is told, at most as long as the limit, and shorter only if it is the whole
-- file.
pub read_file_tail_end :
    (file : Text) (n : ℕ)
    → let t = read_file_tail file (pos (suc n)) in
      (take t.start file ++ t.raw ≡ file)
      × (t.total_size ≡ length file)
      × (t.start + length t.raw ≡ t.total_size)
      × (length t.raw ≡ min (suc n) (length file))
unfolding read_file_tail
read_file_tail_end file n =
    let start = length file - suc n in
    let left : length (drop start file) ≡ length file - start = length-drop start file in
    let whole : take (suc n) (drop start file) ≡ drop start file =
      take_all (suc n) (drop start file) (omega arith) in
    (rw whole (take-drop start file), refl, rw whole (omega arith), rw whole (omega arith))
