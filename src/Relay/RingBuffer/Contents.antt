-- ===== src/Relay/RingBuffer/Contents.antt =====
-- internal/relay/ring_buffer.go: the bytes that a ring buffer holds, and what a write adds to them.
use native.Mathlib.Nat.{mod-eq_of_lt, mod-eq-sub-mod, mod-add-mod}
use vlf_proto.Base.{
  ℕ, ◌+◌, ◌-◌, ◌%◌, ◌≤◌, ◌<◌, ◌&&◌, ◌++◌, ltb, leb, if◌then◌else◌, length, take, drop, get_or, ◌≡◌,
  arith, ap, ap₂, ◌∙◌, length-take, length-drop, dec_lt,
}
use vlf_proto.Base.Tabulate.{
  tabulate, copy_at, length-tabulate, tabulate-congr, tabulate-append, tabulate-get_or,
  length-copy_at, get_or-copy_at, get_or-take, get_or-drop,
}
use vlf_proto.Wire.{Bytes}
use vlf_proto.Relay.RingBuffer.{RingBuffer, min_int, store, IsValid}
use vlf_proto.Relay.RingBuffer.Queue.{Queue}

-- An index that may have gone round once.
abbrev pub wrap : ℕ → ℕ → ℕ
wrap cap x = if ltb x cap then x else x - cap

pub mod-wrap : (cap x : ℕ) → x < cap + cap → x % cap ≡ wrap cap x
mod-wrap cap x h = elim (dec_lt x cap) [
  | yes p ↦ ground (arith, mod-eq_of_lt p)
  | no p ↦ ground (
    arith,
    mod-eq-sub-mod {n = x} {m = cap} (omega arith),
    mod-eq_of_lt {n = x - cap} {m = cap} (omega arith),
  )
]

-- The bytes held, oldest first.
unfoldable pub contents : RingBuffer → Bytes
contents b = tabulate b.size (λ i. get_or b.buf (wrap (length b.buf) (b.r + i)) 0)

abbrev pub view : RingBuffer → Queue
view b = record { bytes = contents b; closed = b.closed }

pub length-store : (b : RingBuffer) (p : Bytes) → length (store b p).buf ≡ length b.buf
unfolding store
length-store b p =
    let first = min_int (length p) (length b.buf - b.w) in
    ground (
      arith,
      length-copy_at b.buf b.w (take first p),
      length-copy_at (copy_at b.buf b.w (take first p)) 0 (drop first p),
    )

module _ (b : RingBuffer) (p : Bytes) (v : IsValid b)
    (fits : length p ≤ length b.buf - b.size) where
  -- Where each byte stands after the copies.
  get_or-store :
      (j : ℕ)
      → j < length b.buf
      → get_or (store b p).buf j 0 ≡ (
          if ltb (j + length b.buf) (b.w + length p)
          then get_or p (j + length b.buf - b.w) 0
          else (if leb b.w j && ltb j (b.w + length p)
              then get_or p (j - b.w) 0
              else get_or b.buf j 0))
  unfolding store
  get_or-store j h =
      let cap = length b.buf in
      let first = min_int (length p) (cap - b.w) in
      let buf₁ = copy_at b.buf b.w (take first p) in
      let w_in : b.w < cap = omega (arith, v.w_at, v.r_in) in
      ground (
        arith,
        get_or-copy_at b.buf b.w (take first p) j 0 h,
        get_or-copy_at buf₁ 0 (drop first p) j 0,
        length-copy_at b.buf b.w (take first p),
        length-take first p,
        length-drop first p,
        get_or-take first (j - b.w) p 0,
        get_or-drop first (j - 0) p 0,
      )

  -- The bytes held stay where they are.
  store-old :
      (i : ℕ)
      → i < b.size
      → get_or (store b p).buf (wrap (length b.buf) (b.r + i)) 0
        ≡ get_or b.buf (wrap (length b.buf) (b.r + i)) 0
  store-old i h =
      let cap = length b.buf in
      rw (get_or-store (wrap cap (b.r + i)) (ground (arith, v.r_in, v.size_in)))
        (ground (arith, v.r_in, v.size_in, v.w_at, mod-wrap cap (b.r + b.size)))

  -- The new ones follow them.
  store-new :
      (i : ℕ)
      → i < length p
      → get_or (store b p).buf (wrap (length b.buf) (b.r + (b.size + i))) 0 ≡ get_or p i 0
  store-new i h =
      let cap = length b.buf in
      let j = wrap cap (b.r + (b.size + i)) in
      let wraps = mod-wrap cap (b.r + b.size) (omega (arith, v.r_in, v.size_in)) in
      rw (get_or-store j (ground (arith, v.r_in, v.size_in)))
        (ground (arith, v.r_in, v.size_in, v.w_at, wraps))

  pub contents-store : contents (store b p) ≡ contents b ++ p
  unfolding store contents
  contents-store =
      let n = length p in
      let held = λ (c i : ℕ). get_or (store b p).buf (wrap c (b.r + i)) 0 in
      ap (λ c. tabulate (b.size + n) (held c)) (length-store b p)
      ∙ tabulate-append b.size n (held (length b.buf))
      ∙ ap₂ ◌++◌ (tabulate-congr b.size _ _ store-old)
          (tabulate-congr n _ (λ i. get_or p i 0) store-new ∙ tabulate-get_or 0 p)

  pub store-IsValid : IsValid (store b p)
  unfolding store
  store-IsValid = record {
    r_in = rw (length-store b p) v.r_in;
    size_in = rw (length-store b p) (omega (arith, v.size_in));
    w_at = rw ((length-store b p), v.w_at, mod-add-mod) (ap (λ x. x % length b.buf) (omega arith));
  }

pub length-contents : (b : RingBuffer) → length (contents b) ≡ b.size
unfolding contents
length-contents b = length-tabulate b.size _
