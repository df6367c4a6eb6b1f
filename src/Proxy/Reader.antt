-- ===== src/Proxy/Reader.antt =====
-- internal/proxy/handler.go: the reader of a buffered body, against any sequence of reads.
use hacp_sidecar.Common.{
  ℕ, zero, suc, ◌+◌, ◌≤◌, ◌<◌, ◌≡◌, refl, sym, ap, ◌∙◌, Bool, true, false, List, [], ◌∷◌, ◌++◌,
  arith, length, take, drop, take-drop, drop-drop, length-drop, leb, if◌then◌else◌, inl, inr,
  Bool-cases,
}
use hacp_sidecar.Wire.{Bytes}

pub record BytesReader : Type 0 where
  pub buffer : Bytes
  pub at : ℕ

unfoldable pub new_bytes_reader : Bytes → BytesReader
new_bytes_reader buffer = record { buffer = buffer; at = 0 }

-- The result of `Read`: the end of the body, or the bytes copied.
pub data ReadResult : Type 0 where
  end_of_body : ReadResult
  bytes_read : Bytes → ReadResult

-- `Read` into a slice of a size: `copy` takes as many bytes as both have.
unfoldable pub read : BytesReader → ℕ → BytesReader × ReadResult
read r size =
    if leb (length r.buffer) r.at
    then (r, end_of_body)
    else let taken = take size (drop r.at r.buffer) in
      (record r { at = r.at + length taken }, bytes_read taken)

-- A read, with the reads after it.
abbrev pub joined : ReadResult → Bytes × Bool → Bytes × Bool
joined end_of_body rest = ([], true)
joined (bytes_read taken) rest = (taken ++ rest.0, rest.1)

-- The reading of a body by a client that gives a slice of some size each time, up to the end: what it has
-- got, and whether it has met the end.
unfoldable pub read_all : BytesReader → List ℕ → Bytes × Bool
unfolding read
read_all r [] = ([], false)
read_all r (size ∷ sizes) = let step = read r size in joined step.1 (read_all step.0 sizes)

-- Slices that are not empty.
abbrev pub AllPositive : List ℕ → Type 0
AllPositive [] = Unit {0}
AllPositive (size ∷ sizes) = (0 < size) × AllPositive sizes

length-take : (n : ℕ) (xs : Bytes) → (0 < n) → (0 < length xs) → 0 < length (take n xs)
length-take zero xs h k = h
length-take (suc n) [] h k = k
length-take (suc n) (x ∷ xs) h k = omega arith

drop-taken : (n : ℕ) (xs : Bytes) → drop (length (take n xs)) xs ≡ drop n xs
drop-taken zero xs = refl
drop-taken (suc n) [] = refl
drop-taken (suc n) (x ∷ xs) = drop-taken n xs

drop-all : (n : ℕ) (xs : Bytes) → length xs ≤ n → drop n xs ≡ []
drop-all zero [] h = refl
drop-all zero (x ∷ xs) h = absurd (omega arith)
drop-all (suc n) [] h = refl
drop-all (suc n) (x ∷ xs) h = drop-all n xs (omega arith)

length-drop_rest : (n : ℕ) (xs : Bytes) → n < length xs → 0 < length (drop n xs)
length-drop_rest n xs h = omega (arith, length-drop n xs (omega arith))

length-take_le : (n : ℕ) (xs : Bytes) → length (take n xs) ≤ length xs
length-take_le zero xs = omega arith
length-take_le (suc n) [] = omega arith
length-take_le (suc n) (x ∷ xs) = omega (arith, length-take_le n xs)

-- What was taken, with what is left, is what there was.
rejoined :
    (size k : ℕ) (xs : Bytes)
    → take size (drop k xs) ++ drop (k + length (take size (drop k xs))) xs ≡ drop k xs
rejoined size k xs =
    ap (λ ys. take size (drop k xs) ++ ys)
      (sym (drop-drop (length (take size (drop k xs))) k xs) ∙ drop-taken size (drop k xs))
    ∙ take-drop size (drop k xs)

read_all-rest :
    (r : BytesReader) (sizes : List ℕ)
    → AllPositive sizes
    → r.at ≤ length r.buffer
    → length r.buffer < r.at + length sizes
    → read_all r sizes ≡ (drop r.at r.buffer, true)
unfolding read_all read
read_all-rest r [] p inside h = absurd (omega arith)
read_all-rest r (size ∷ sizes) (p, ps) inside h = elim (Bool-cases (leb (length r.buffer) r.at)) [
  | inl over ↦
      rw (over, read_all, read)
        (ap (λ ys. (ys, true)) (sym (drop-all r.at r.buffer (ground (arith, over)))))
  | inr more ↦
      let taken = take size (drop r.at r.buffer) in
      let r' : BytesReader = record r { at = r.at + length taken } in
      let some_taken =
        length-take size (drop r.at r.buffer) p
          (length-drop_rest r.at r.buffer (ground (arith, more))) in
      let rest =
        read_all-rest r' sizes ps
          (omega
            (arith, length-take_le size (drop r.at r.buffer), length-drop r.at r.buffer inside))
          (omega (arith, some_taken)) in
      let step : read r size ≡ (r', bytes_read taken) = rw (more, read) refl in
      ap (λ (now : BytesReader × ReadResult). joined now.1 (read_all now.0 sizes)) step
      ∙ ap (joined (bytes_read taken)) rest
      ∙ ap (λ ys. (ys, true)) (rejoined size r.at r.buffer)
]

-- A body is read as it is, and the reading ends: any reads into slices that are not empty, more of them than
-- the body has bytes, give exactly the body's bytes and then its end.
pub read_all-body :
    (body : Bytes) (sizes : List ℕ)
    → AllPositive sizes
    → length body < length sizes
    → read_all (new_bytes_reader body) sizes ≡ (body, true)
unfolding new_bytes_reader
read_all-body body sizes p h =
    read_all-rest (record { buffer = body; at = 0 }) sizes p (omega arith) (omega arith)
