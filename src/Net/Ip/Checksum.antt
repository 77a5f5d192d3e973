-- ===== src/Net/Ip/Checksum.antt =====
-- The Internet checksum of the headers that the code builds.
use cllm.Common.{
  ℕ, zero, suc, ◌+◌, ◌*◌, ◌/◌, ◌%◌, ◌^◌, ◌<◌, ◌≡◌, refl, ap, ◌∙◌, List, [], ◌∷◌, ◌++◌, arith,
  Bool-cases, inl, inr, length, take, All, All-append, ◌==◌,
}
use cllm.Net.Wire.{be16_bytes, be32_bytes}
use cllm.Net.Tcp.{net_ip_addr, add32}
use cllm.Net.Ip.{sum_words, fold, complement, ip_checksum, le16_bytes, ip_header, ip_packet}

-- Folding keeps the sum modulo 2^16 - 1, and a sum that is not zero stays so.
record Folds (s r : ℕ) : Type 0 where
  times : ℕ
  same : s ≡ 65535 * times + r
  live : 0 < s → 0 < r

fold-Folds : (n s : ℕ) → Folds s (fold n s)
unfolding fold
fold-Folds zero s = record { times = 0; same = omega arith; live = λ h. h }
fold-Folds (suc n) s = elim (Bool-cases (s / 2 ^ 16 == 0)) [
  | inl e ↦ rw e (record { times = 0; same = omega arith; live = λ h. h })
  | inr e ↦
      let r = fold-Folds n (s % 2 ^ 16 + s / 2 ^ 16) in
      rw e (record {
        times = r.times + s / 2 ^ 16;
        same = omega (arith, r.same);
        live = λ h. r.live (omega (arith, h));
      })
]

fold_small : (n s : ℕ) → s < 2 ^ 16 → fold n s ≡ s
unfolding fold
fold_small zero s h = refl
fold_small (suc n) s h = ground (arith, h)

-- Three rounds are enough for a 32-bit sum.
fold-lt : (s : ℕ) → s < 2 ^ 32 → fold 3 s < 2 ^ 16
unfolding fold
fold-lt s h = ground arith

-- The words of a list, without the wrap of the 32-bit sum.
abbrev plain : List ℕ → ℕ
plain [] = 0
plain (a ∷ []) = a
plain (a ∷ b ∷ l) = a + b * 256 + plain l

abbrev IsByte : ℕ → Type 0
IsByte a = a < 256

sum_words-plain :
    (sum : ℕ) (l : List ℕ)
    → All IsByte l
    → sum + length l * 65536 < 2 ^ 32
    → (sum_words sum l ≡ sum + plain l) × (sum + plain l < 2 ^ 32)
unfolding sum_words
sum_words-plain sum [] h lt = (omega arith, omega arith)
sum_words-plain sum (a ∷ []) h lt = (omega (arith, h.0), omega (arith, h.0))
sum_words-plain sum (a ∷ b ∷ l) h lt =
    let step : add32 sum (a + b * 256) ≡ sum + (a + b * 256) = omega (arith, h.0, h.1.0) in
    let r = sum_words-plain (sum + (a + b * 256)) l h.1.1 (omega (arith, h.0, h.1.0)) in
    (rw step (r.0 ∙ omega arith), omega (arith, r.1))

-- A sum together with its checksum folds to all ones.
complement-verifies :
    (s : ℕ) → 0 < s → s + complement s < 2 ^ 32 → complement (s + complement s) ≡ 0
complement-verifies s pos lt =
    let f = fold-Folds 3 s in
    let b = fold-lt s (omega arith) in
    let g = fold-Folds 3 (s + complement s) in
    let c = fold-lt (s + complement s) lt in
    omega (arith, f.same, b, g.same, g.live (omega (arith, pos)), c)

be16_bytes-IsByte : (x : ℕ) → All IsByte (be16_bytes x)
be16_bytes-IsByte x = (omega arith, (omega arith, tt))

le16_bytes-IsByte : (x : ℕ) → All IsByte (le16_bytes x)
le16_bytes-IsByte x = (omega arith, (omega arith, tt))

be32_bytes-IsByte : (x : ℕ) → All IsByte (be32_bytes x)
be32_bytes-IsByte x = (omega arith, (omega arith, (omega arith, (omega arith, tt))))

ip_header-IsByte :
    (checksum : List ℕ) (proto id dst_ip n : ℕ)
    → All IsByte checksum
    → proto < 256
    → All IsByte (ip_header checksum proto id dst_ip n)
ip_header-IsByte checksum proto id dst_ip n h k =
    let tail =
      All-append IsByte (checksum ++ be32_bytes net_ip_addr) (be32_bytes dst_ip)
        (All-append IsByte checksum (be32_bytes net_ip_addr) h (be32_bytes-IsByte net_ip_addr))
        (be32_bytes-IsByte dst_ip) in
    let len = be16_bytes-IsByte (20 + n) in
    let ident = be16_bytes-IsByte id in
    (
      omega arith,
      (
        omega arith,
        (
          len.0,
          (len.1.0, (ident.0, (ident.1.0, (omega arith, (omega arith, (omega arith, (k, tail))))))),
        ),
      ),
    )

-- Whoever receives a packet of `net_send_ip` finds its header's checksum right: the checksum
-- computed over the header, with the field filled in, is zero. The protocol is a byte.
pub ip_packet-verifies :
    (proto id dst_ip : ℕ) (payload : List ℕ)
    → proto < 256
    → ip_checksum (take 20 (ip_packet proto id dst_ip payload)) ≡ 0
unfolding ip_checksum ip_packet
ip_packet-verifies proto id dst_ip payload h =
    let n = length payload in
    let blank = ip_header (0 ∷ 0 ∷ []) proto id dst_ip n in
    let zeroes : All IsByte (0 ∷ 0 ∷ []) = (omega arith, (omega arith, tt)) in
    let r =
      sum_words-plain 0 blank (ip_header-IsByte (0 ∷ 0 ∷ []) proto id dst_ip n zeroes h)
        (omega arith) in
    let c = complement (plain blank) in
    let full = ip_header (le16_bytes c) proto id dst_ip n in
    let q =
      sum_words-plain 0 full
        (ip_header-IsByte (le16_bytes c) proto id dst_ip n (le16_bytes-IsByte c) h) (omega arith) in
    let start : sum_words 0 blank ≡ plain blank = r.0 ∙ omega arith in
    let sum : 0 + plain full ≡ plain blank + c = omega arith in
    ap (λ w. complement (sum_words 0 (ip_header (le16_bytes (complement w)) proto id dst_ip n)))
      start
    ∙ ap complement (q.0 ∙ sum)
    ∙ complement-verifies (plain blank) (omega arith) (omega (arith, q.1, sum))
