-- ===== src/Store/Chunks/Batches.antt =====
-- What InsertBatch of store/chunk_store.go has written when it ends.
use mathlib.Core.List.{append_assoc, append-nil}
use godeepwiki.Common.{
  ℕ, zero, suc, ◌+◌, ◌*◌, ◌≤◌, ◌<◌, ◌≡◌, refl, ap, sym, ◌∙◌, ◌⊎◌, Bool, false, List, [], ◌∷◌, ◌++◌,
  length, take, drop, length-drop, take-append-drop, arith, Result, ok, err, Bool-cases, inl, inr,
}
use godeepwiki.Model.Chunk.{Chunk}
use godeepwiki.Model.Errors.{Error}
use godeepwiki.Store.Chunks.{insert_batches, insert_batch, all_valid, chunk_batch_size}

-- On success everything was written, in order. Otherwise some whole batches were.
abbrev pub Wrote : List Chunk → List Chunk → Result Error (Unit {0}) × List Chunk → Type 0
Wrote table chunks (ok _, table') = table' ≡ table ++ chunks
Wrote table chunks (err e, table') =
    (k : ℕ) × (chunk_batch_size * k < length chunks)
    × (table' ≡ table ++ take (chunk_batch_size * k) chunks)

take_nil {ℓ} : {A : Type ℓ} (n : ℕ) → take {A = A} n [] ≡ []
take_nil zero = refl
take_nil (suc n) = refl

take_add {ℓ} :
    {A : Type ℓ} (a b : ℕ) (xs : List A) → take a xs ++ take b (drop a xs) ≡ take (a + b) xs
take_add zero b xs = ap (λ n. take n xs) (omega arith)
take_add {A} (suc a) b [] = take_nil {A = A} b ∙ sym (take_nil {A = A} (suc a + b))
take_add (suc a) b (x ∷ xs) =
    ap (◌∷◌ x) (take_add a b xs)
    ∙ ap (λ n. take n (x ∷ xs)) (let e : suc (a + b) ≡ suc a + b = omega arith in e)

Wrote-batch :
    (size : ℕ) (table chunks : List Chunk) (reply : Result Error (Unit {0}) × List Chunk)
    → size ≡ chunk_batch_size
    → Wrote (table ++ take size chunks) (drop size chunks) reply
    → Wrote table chunks reply
Wrote-batch size table chunks (ok _, table') e w =
    w
    ∙ append_assoc table (take size chunks) (drop size chunks)
    ∙ ap (λ l. table ++ l) (take-append-drop size chunks)
Wrote-batch size table chunks (err x, table') e (k, few, w) = (
  suc k,
  omega (arith, e, length-drop {0} size chunks),
  w
      ∙ append_assoc table (take size chunks) (take (chunk_batch_size * k) (drop size chunks))
      ∙ ap (λ l. table ++ l)
          (take_add size (chunk_batch_size * k) chunks
            ∙ ap (λ n. take n chunks)
                (let q : size + chunk_batch_size * k ≡ chunk_batch_size * suc k =
                    omega (arith, e) in
                  q)),
)

insert_batches-Wrote :
    (batch_ok : ℕ → Bool) (fuel i : ℕ) (chunks table : List Chunk)
    → length chunks ≤ fuel
    → Wrote table chunks (insert_batches batch_ok fuel i chunks table)
unfolding insert_batches
insert_batches-Wrote batch_ok fuel i [] table h = sym (append-nil table)
insert_batches-Wrote batch_ok zero i (c ∷ cs) table h = absurd (omega arith)
insert_batches-Wrote batch_ok (suc fuel) i (c ∷ cs) table h = elim (Bool-cases (batch_ok i)) [
  | inl goes ↦ rw goes (
      Wrote-batch 500 table (c ∷ cs) _ refl (
        insert_batches-Wrote batch_ok fuel (suc i) (drop 500 (c ∷ cs)) (table ++ take 500 (c ∷ cs))
          (omega (arith, length-drop {0} 500 (c ∷ cs)))))
  | inr fails ↦ rw fails (0, omega arith, sym (append-nil table))
]

-- If InsertBatch returns no error, all rows were written, in order and behind what was there. If it
-- returns an error, then either some whole batches of 500, from the first on and not all rows, were
-- written and stay, and nothing else; or an identifier is not valid and nothing was written.
pub insert_batch-Wrote :
    (batch_ok : ℕ → Bool) (chunks table : List Chunk)
    → Wrote table chunks (insert_batch batch_ok chunks table)
      ⊎ ((all_valid chunks ≡ false) × ((insert_batch batch_ok chunks table).1 ≡ table))
unfolding insert_batch
insert_batch-Wrote batch_ok chunks table = elim (Bool-cases (all_valid chunks)) [
  | inl good ↦
      inl (rw good (insert_batches-Wrote batch_ok (length chunks) 0 chunks table (omega arith)))
  | inr bad ↦ inr (bad, rw bad refl)
]
