-- ===== src/Relay/RingBuffer/Front.antt =====
-- internal/relay/ring_buffer.go: the oldest bytes of a ring buffer, and what is left behind them.
use native.Mathlib.Nat.{mod-add-mod}
use vlf_proto.Base.{
  ℕ, zero, suc, ◌+◌, ◌-◌, ◌%◌, ◌≤◌, [], ◌++◌, ltb, if◌then◌else◌, length, take, drop, get_or, ◌≡◌,
  ◌⊎◌, refl, arith, ap, ap₂, ◌∙◌, sym, take-append, drop-append,
}
use vlf_proto.Base.Tabulate.{
  tabulate, length-tabulate, tabulate-congr, tabulate-append, take-drop-tabulate,
}
use vlf_proto.Wire.{Bytes}
use vlf_proto.Relay.RingBuffer.{RingBuffer, min_int, front, advance, IsValid}
use vlf_proto.Relay.RingBuffer.Contents.{wrap, mod-wrap, contents}

if-take : (k : ℕ) (xs : Bytes) → (if ltb 0 k then take k xs else []) ≡ take k xs
if-take zero xs = refl
if-take (suc k) xs = ground arith

-- The byte `i` steps behind the oldest.
abbrev pub nth : RingBuffer → ℕ → ℕ
nth b i = get_or b.buf (wrap (length b.buf) (b.r + i)) 0

front_first :
    (b : RingBuffer) (k : ℕ) → b.r + k ≤ length b.buf → take k (drop b.r b.buf) ≡ tabulate k (nth b)
front_first b k h =
    take-drop-tabulate 0 k b.r b.buf h ∙ tabulate-congr k _ (nth b) (λ i l. ground arith)

front_second :
    (b : RingBuffer) (k first : ℕ)
    → k ≤ length b.buf
    → k ≡ 0 ⊎ (b.r + first ≡ length b.buf)
    → take k b.buf ≡ tabulate k (λ i. nth b (first + i))
front_second b k first h e =
    take-drop-tabulate 0 k 0 b.buf (omega arith)
    ∙ tabulate-congr k _ (λ i. nth b (first + i)) (λ i l. ground arith)

module _ (b : RingBuffer) (n : ℕ) (v : IsValid b) (held : n ≤ b.size) where
  front-tabulate : front b n ≡ tabulate n (nth b)
  unfolding front
  front-tabulate =
      let cap = length b.buf in
      let first = min_int n (cap - b.r) in
      let second = n - first in
      let whole : first + second ≡ n = ground arith in
      ap₂ ◌++◌ (front_first b first (ground (arith, v.r_in))) (
        if-take second b.buf
        ∙ front_second b second first (ground (arith, v.size_in)) (ground (arith, v.r_in)))
      ∙ sym (tabulate-append first second (nth b))
      ∙ ap (λ k. tabulate k (nth b)) whole

  pub contents-advance : contents b ≡ front b n ++ contents (advance b n)
  unfolding contents advance
  contents-advance =
      let cap = length b.buf in
      let whole : b.size ≡ n + (b.size - n) = omega arith in
      let turn = mod-wrap cap (b.r + n) (omega (arith, v.r_in, v.size_in)) in
      ap (λ k. tabulate k (nth b)) whole
      ∙ tabulate-append n (b.size - n) (nth b)
      ∙ ap₂ ◌++◌ (sym front-tabulate) (
          tabulate-congr (b.size - n) _ (λ i. get_or b.buf (wrap cap ((b.r + n) % cap + i)) 0)
            (λ i h. ground (arith, v.r_in, v.size_in, turn)))

  length-front : length (front b n) ≡ n
  length-front = rw front-tabulate (length-tabulate n (nth b))

  pub advance-IsValid : IsValid (advance b n)
  unfolding advance
  advance-IsValid = record {
    r_in = omega (arith, v.r_in);
    size_in = omega (arith, v.size_in);
    w_at = rw (v.w_at, mod-add-mod) (ap (λ x. x % length b.buf) (omega arith));
  }

  pub take-contents : take n (contents b) ≡ front b n
  take-contents = rw contents-advance (
      ap (λ k. take k (front b n ++ contents (advance b n))) (sym length-front)
      ∙ take-append (front b n) (contents (advance b n)))

  pub drop-contents : drop n (contents b) ≡ contents (advance b n)
  drop-contents = rw contents-advance (
      ap (λ k. drop k (front b n ++ contents (advance b n))) (sym length-front)
      ∙ drop-append (front b n) (contents (advance b n)))
