-- ===== src/Base/Arrays.antt =====
-- C arrays as lists: checked reads and writes, where an access outside the array is a fault.
use Prim.Native.Nat.{ℕ, zero, suc, ◌+◌, ◌-◌, ◌≤◌, ◌<◌}
use mathlib.Core.Path.{◌≡◌, refl, ap, sym, ◌∙◌}
use mathlib.Core.List.{List, [], ◌∷◌, ◌++◌, append_assoc, append-nil}
use mathlib.Core.Option.{Option, none, some}
use native.Mathlib.Nat.{add-zero}
use native.Mathlib.Omega.{arith}
use baka_dns.Base.Checks.{ltb, if◌then◌else◌, ◌>>=◌, lt→ltb}
use baka_dns.Base.Lists.{
  length, get_elem?, set, drop, replicate, length-replicate, drop-drop, length-append,
  drop-append_self,
}

-- `a[p] = b`
unfoldable pub write_byte : List ℕ → ℕ → ℕ → Option (List ℕ)
write_byte buf p b = if ltb p (length buf) then some (set buf p b) else none

-- An array of `n` bytes that is initialised with `{0}`.
unfoldable pub zeroed : ℕ → List ℕ
zeroed n = replicate n 0

-- `memcpy(dest, buf + p, n)`: the bytes that are read.
unfoldable pub read_bytes : List ℕ → ℕ → ℕ → Option (List ℕ)
read_bytes buf p zero = some []
read_bytes buf p (suc n) = do b ← get_elem? buf p; rest ← read_bytes buf (p + 1) n; some (b ∷ rest)

-- `memcpy(buf + p, src, n)` for the `n` bytes of the list.
unfoldable pub write_bytes : List ℕ → ℕ → List ℕ → Option (List ℕ)
write_bytes buf p [] = some buf
write_bytes buf p (b ∷ bs) = do buf' ← write_byte buf p b; write_bytes buf' (p + 1) bs

module _ {ℓ} {A : Type ℓ} where
  pub get_elem?-drop :
      (buf : List A) (p : ℕ) (x : A) (xs : List A) → drop p buf ≡ x ∷ xs → get_elem? buf p ≡ some x
  get_elem?-drop [] zero x xs h = ground arith
  get_elem?-drop [] (suc p) x xs h = ground arith
  get_elem?-drop (y ∷ buf) zero x xs h = ground arith
  get_elem?-drop (y ∷ buf) (suc p) x xs h = get_elem?-drop buf p x xs h

  pub drop-skip :
      (buf : List A) (p : ℕ) (bs rest : List A)
      → drop p buf ≡ bs ++ rest
      → drop (p + length bs) buf ≡ rest
  drop-skip buf p bs rest h =
      sym (drop-drop p (length bs) buf) ∙ ap (drop (length bs)) h ∙ drop-append_self bs rest

  pub drop-next :
      (buf : List A) (p : ℕ) (x : A) (xs : List A) → drop p buf ≡ x ∷ xs → drop (p + 1) buf ≡ xs
  drop-next buf p x xs h = drop-skip buf p (x ∷ []) xs h

  pub set-append :
      (xs : List A) (y v : A) (ys : List A) → set (xs ++ (y ∷ ys)) (length xs) v ≡ xs ++ (v ∷ ys)
  set-append [] y v ys = refl
  set-append (x ∷ xs) y v ys = ap (◌∷◌ x) (set-append xs y v ys)

-- Reading where the bytes stand gives them.
pub read_bytes-drop :
    (buf : List ℕ) (p : ℕ) (bs rest : List ℕ)
    → drop p buf ≡ bs ++ rest
    → read_bytes buf p (length bs) ≡ some bs
unfolding read_bytes
read_bytes-drop buf p [] rest h = refl
read_bytes-drop buf p (b ∷ bs) rest h =
    let e = get_elem?-drop buf p b (bs ++ rest) h in
    let r = read_bytes-drop buf (p + 1) bs rest (drop-next buf p b (bs ++ rest) h) in rw (e, r)

pub write_byte-append :
    (xs : List ℕ) (y v : ℕ) (ys : List ℕ)
    → write_byte (xs ++ (y ∷ ys)) (length xs) v ≡ some ((xs ++ (v ∷ [])) ++ ys)
unfolding write_byte
write_byte-append xs y v ys =
    rw (lt→ltb (length xs) (length (xs ++ (y ∷ ys))) (omega (arith, length-append xs (y ∷ ys))))
      (ap some (set-append xs y v ys ∙ sym (append_assoc xs (v ∷ []) ys)))

-- Writing behind what is written appends, as long as there is room.
pub write_bytes-append :
    (xs bs free : List ℕ) (p : ℕ)
    → p ≡ length xs
    → length bs ≤ length free
    → write_bytes (xs ++ free) p bs ≡ some ((xs ++ bs) ++ drop (length bs) free)
unfolding write_bytes
write_bytes-append xs [] free p e h = ap (λ l. some (l ++ free)) (sym (append-nil xs))
write_bytes-append xs (b ∷ bs) [] p e h = absurd (omega arith)
write_bytes-append xs (b ∷ bs) (y ∷ free) p e h =
    rw (e, write_byte-append xs y b free)
      (write_bytes-append (xs ++ (b ∷ [])) bs free (length xs + 1)
          (omega (arith, length-append xs (b ∷ []))) (omega arith)
        ∙ ap (λ l. some (l ++ drop (length bs) free)) (append_assoc xs (b ∷ []) bs))

-- Two writes in a row are one write.
pub write_bytes-append_list :
    (b : List ℕ) (p : ℕ) (xs ys : List ℕ)
    → write_bytes b p (xs ++ ys) ≡ (write_bytes b p xs >>= λ b'. write_bytes b' (p + length xs) ys)
unfolding write_bytes
write_bytes-append_list b p [] ys = ap (λ k. write_bytes b k ys) (sym (add-zero p))
write_bytes-append_list b p (x ∷ xs) ys =
    go (λ b'. write_bytes-append_list b' (p + 1) xs ys) (write_byte b p x)
  where
    e : p + 1 + length xs ≡ p + suc (length xs)
    e = omega arith

    go :
        ((b' : List ℕ)
          → write_bytes b' (p + 1) (xs ++ ys)
            ≡ (write_bytes b' (p + 1) xs >>= λ c. write_bytes c (p + 1 + length xs) ys))
        → (m : Option (List ℕ))
        → (m >>= λ b'. write_bytes b' (p + 1) (xs ++ ys)) ≡ (
            (m >>= λ b'. write_bytes b' (p + 1) xs) >>= λ b'.
            write_bytes b' (p + suc (length xs)) ys)
    go step none = refl
    go step (some b') =
        step b' ∙ ap (λ k. write_bytes b' (p + 1) xs >>= λ b'. write_bytes b' k ys) e

pub write_byte-write_bytes : (b : List ℕ) (p x : ℕ) → write_byte b p x ≡ write_bytes b p (x ∷ [])
unfolding write_bytes
write_byte-write_bytes b p x = go (write_byte b p x)
  where
    go : (m : Option (List ℕ)) → m ≡ (m >>= λ b'. some b')
    go none = refl
    go (some b') = refl

pub length-zeroed : (n : ℕ) → length (zeroed n) ≡ n
unfolding zeroed
length-zeroed n = length-replicate n 0

pub zeroed-suc : (n : ℕ) → zeroed (suc n) ≡ 0 ∷ zeroed n
unfolding zeroed
zeroed-suc n = refl

pub drop-zeroed : (k n : ℕ) → k ≤ n → drop k (zeroed n) ≡ zeroed (n - k)
unfolding zeroed
drop-zeroed zero n h = ap zeroed (omega arith)
drop-zeroed (suc k) zero h = absurd (omega arith)
drop-zeroed (suc k) (suc n) h =
    let e : n - k ≡ suc n - suc k = omega arith in drop-zeroed k n (omega arith) ∙ ap zeroed e

write_byte-outside : (b : List ℕ) (p v : ℕ) → p ≡ length b → write_byte b p v ≡ none
unfolding write_byte
write_byte-outside b p v e = ground arith

-- Writing more than there is room for is a fault.
pub write_bytes-overflow :
    (xs bs free : List ℕ) (p : ℕ)
    → p ≡ length xs
    → length free < length bs
    → write_bytes (xs ++ free) p bs ≡ none
unfolding write_bytes
write_bytes-overflow xs [] free p e h = absurd (omega arith)
write_bytes-overflow xs (b ∷ bs) [] p e h =
    let l = length-append xs [] in rw (write_byte-outside (xs ++ []) p b (omega arith), ◌>>=◌)
write_bytes-overflow xs (b ∷ bs) (y ∷ free) p e h =
    rw (e, write_byte-append xs y b free, ◌>>=◌)
      (write_bytes-overflow (xs ++ (b ∷ [])) bs free (length xs + 1)
        (omega (arith, length-append xs (b ∷ []))) (omega arith))
