-- ===== src/Dispatch/Output.antt =====
-- boundedBuffer of internal/dispatch/output_limit.go.
use senechal_gw.Prelude.{
  ℕ, zero, suc, ◌+◌, ◌-◌, ◌*◌, ◌≤◌, ◌<◌, ◌≡◌, refl, sym, ap, ◌∙◌, inl, inr, Bool, true, false, List,
  [], ◌∷◌, ◌++◌, length, length-append, append_nil, append_assoc, take, subst, All, arith, ltb, leb,
  ◌==◌, Bool-cases, if◌then◌else◌,
}
use senechal_gw.Prelude.Places.{take-append_short, take-append_long, length-take_long, take_all}

-- A limit of 0 stands for 0 and below.
pub record BoundedBuffer : Type 0 where
  pub buf : List ℕ
  pub limit : ℕ
  pub truncated : Bool

-- maxStdoutBytes
abbrev pub max_stdout_bytes : ℕ
max_stdout_bytes = 10 * 1024 * 1024

-- newBoundedBuffer
unfoldable pub new_bounded_buffer : ℕ → BoundedBuffer
new_bounded_buffer limit = record { buf = []; limit = limit; truncated = false }

-- Write: the number that it answers, and the buffer. It never fails.
unfoldable pub write : List ℕ → BoundedBuffer → ℕ × BoundedBuffer
write p b =
    let remaining = b.limit - length b.buf in
    if 0 == b.limit
    then (length p, b)
    else if 0 == remaining
    then (length p, record b { truncated = true })
    else if leb (length p) remaining
    then (length p, record b { buf = b.buf ++ p })
    else (length p, record b { buf = b.buf ++ take remaining p; truncated = true })

-- The writes of a process, in order.
unfoldable pub write_all : List (List ℕ) → BoundedBuffer → BoundedBuffer
write_all [] b = b
write_all (p ∷ ps) b = write_all ps (write p b).1

pub concat : List (List ℕ) → List ℕ
concat [] = []
concat (p ∷ ps) = p ++ concat ps

take-none : (n m : ℕ) (xs : List ℕ) → n ≤ m → take (n - m) xs ≡ []
take-none n m xs l = go (n - m) xs (omega (arith, l))
  where
    go : (k : ℕ) (xs : List ℕ) → k ≡ 0 → take k xs ≡ []
    go zero xs e = refl
    go (suc k) xs e = absurd (omega (arith, e))

-- The buffer after the bytes `all` have been written.
pub record IsPrefixOf (all : List ℕ) (limit : ℕ) (b : BoundedBuffer) : Type 0 where
  pub same_limit : b.limit ≡ limit
  pub held : b.buf ≡ take limit all
  pub cut : b.truncated ≡ ltb limit (length all)

write-room :
    (p all : List ℕ) (b : BoundedBuffer)
    → 0 < b.limit
    → 0 < length p
    → length all ≤ b.limit
    → b.buf ≡ all
    → b.truncated ≡ false
    → ((write p b).1.buf ≡ b.buf ++ take (b.limit - length b.buf) p)
      × ((write p b).1.truncated ≡ ltb b.limit (length all + length p))
unfolding write
write-room p all b l n s h t = (
  ground (
    arith,
    l,
    n,
    s,
    ap length h,
    append_nil b.buf,
    take_all (b.limit - length b.buf) p,
    take-none b.limit (length b.buf) p,
  ),
  ground (arith, l, n, s, ap length h, t),
)

write-full :
    (p : List ℕ) (b : BoundedBuffer)
    → 0 < b.limit
    → length b.buf ≡ b.limit
    → ((write p b).1.buf ≡ b.buf) × ((write p b).1.truncated ≡ true)
unfolding write
write-full p b l e = (ground (arith, l, e), ground (arith, l, e))

write-limit : (p : List ℕ) (b : BoundedBuffer) → (write p b).1.limit ≡ b.limit
unfolding write
write-limit p b = ground arith

write-IsPrefixOf :
    (all p : List ℕ) (limit : ℕ) (b : BoundedBuffer)
    → 0 < limit
    → 0 < length p
    → IsPrefixOf all limit b
    → IsPrefixOf (all ++ p) limit (write p b).1
write-IsPrefixOf all p limit b l n v = elim (Bool-cases (ltb limit (length all))) [
  | inl t ↦
      let k : limit ≤ length all = ground (arith, t) in
      let e : length b.buf ≡ b.limit =
        ap length v.held ∙ length-take_long limit all k ∙ sym v.same_limit in
      let (x, y) = write-full p b (rw v.same_limit l) e in
      record {
        same_limit = write-limit p b ∙ v.same_limit;
        held = x ∙ v.held ∙ sym (take-append_long limit all p k);
        cut = y ∙ sym (rw (length-append all p) (ground (arith, t)));
      }
  | inr t ↦
      let k : length all ≤ limit = ground (arith, t) in
      let e : b.buf ≡ all = v.held ∙ take_all limit all k in
      let (x, y) = write-room p all b (rw v.same_limit l) n (rw v.same_limit k) e (v.cut ∙ t) in
      record {
        same_limit = write-limit p b ∙ v.same_limit;
        held = x ∙ rw (e, v.same_limit) (sym (take-append_short limit all p k));
        cut = y ∙ rw (v.same_limit, length-append all p) refl;
      }
]

write_all-IsPrefixOf :
    (ps : List (List ℕ)) (all : List ℕ) (limit : ℕ) (b : BoundedBuffer)
    → 0 < limit
    → All (λ p. 0 < length p) ps
    → IsPrefixOf all limit b
    → IsPrefixOf (all ++ concat ps) limit (write_all ps b)
unfolding write_all concat
write_all-IsPrefixOf [] all limit b l n v =
    subst (λ x. IsPrefixOf x limit b) (sym (append_nil all)) v
write_all-IsPrefixOf (p ∷ ps) all limit b l (n, ns) v =
    subst (λ x. IsPrefixOf x limit (write_all ps (write p b).1)) (append_assoc all p (concat ps))
      (write_all-IsPrefixOf ps (all ++ p) limit _ l ns (write-IsPrefixOf all p limit b l n v))

-- After any writes that are not empty, a buffer with a positive limit holds the first `limit` of the
-- bytes written, and is marked as truncated exactly where there were more.
pub write_all-keeps_prefix :
    (limit : ℕ) (ps : List (List ℕ))
    → 0 < limit
    → All (λ p. 0 < length p) ps
    → IsPrefixOf (concat ps) limit (write_all ps (new_bounded_buffer limit))
unfolding new_bounded_buffer
write_all-keeps_prefix limit ps l n =
    write_all-IsPrefixOf ps [] limit (new_bounded_buffer limit) l n (record {
      same_limit = refl;
      held = sym (take_all limit [] (omega arith));
      cut = ground (arith, l);
    })
