-- ===== src/Wal/Frame/Reading.antt =====
-- What the scan does at one frame, whole or cut short (consensus/src/wal.rs).
use aether_engine.Prelude.{
  ℕ, suc, ◌+◌, ◌-◌, ◌/◌, ◌%◌, ◌^◌, ◌<◌, ◌≡◌, refl, sym, ap, ◌∙◌, false, List, [], ◌∷◌, ◌++◌, none,
  some, nat_eq, beq_refl, length, is_empty, take, drop, arith, le→ltb_false, lt→ltb, length-append,
  take-append_self, drop-append_self, length-take_lt,
}
use native.Mathlib.Decide.{dec_lt}
use aether_engine.Wal.State.{WalRecord}
use aether_engine.Wal.Frame.{
  Codec, from_le_bytes, header, Scan, frame, stop, push, scan_payload, scan_from,
}

le_bytes_lem :
    (n : ℕ)
    → n < 2 ^ 32
    → from_le_bytes (n % 256) (n / 256 % 256) (n / 65536 % 256) (n / 16777216 % 256) ≡ n
unfolding from_le_bytes
le_bytes_lem n h = omega arith

-- Fewer than eight bytes are no header.
pub header-short : (xs : List ℕ) → length xs < 8 → header xs ≡ none
unfolding header
header-short [] h = refl
header-short (a ∷ []) h = refl
header-short (a ∷ b ∷ []) h = refl
header-short (a ∷ b ∷ c ∷ []) h = refl
header-short (a ∷ b ∷ c ∷ d ∷ []) h = refl
header-short (a ∷ b ∷ c ∷ d ∷ e ∷ []) h = refl
header-short (a ∷ b ∷ c ∷ d ∷ e ∷ f ∷ []) h = refl
header-short (a ∷ b ∷ c ∷ d ∷ e ∷ f ∷ g ∷ []) h = refl
header-short (a ∷ b ∷ c ∷ d ∷ e ∷ f ∷ g ∷ i ∷ body) h = absurd (omega arith)

-- A header takes eight bytes.
header-length :
    (xs : List ℕ) (len crc : ℕ) (body : List ℕ)
    → header xs ≡ some (len, crc, body)
    → length xs ≡ 8 + length body
unfolding header
header-length (a ∷ b ∷ c ∷ d ∷ e ∷ f ∷ g ∷ h ∷ rest) len crc body eq = ground arith
header-length [] len crc body eq = cc
header-length (a ∷ []) len crc body eq = cc
header-length (a ∷ b ∷ []) len crc body eq = cc
header-length (a ∷ b ∷ c ∷ []) len crc body eq = cc
header-length (a ∷ b ∷ c ∷ d ∷ []) len crc body eq = cc
header-length (a ∷ b ∷ c ∷ d ∷ e ∷ []) len crc body eq = cc
header-length (a ∷ b ∷ c ∷ d ∷ e ∷ f ∷ []) len crc body eq = cc
header-length (a ∷ b ∷ c ∷ d ∷ e ∷ f ∷ g ∷ []) len crc body eq = cc

pub head_eq : {A : Type 0} {x y : A} {xs ys : List A} → x ∷ xs ≡ y ∷ ys → x ≡ y
head_eq e = cc

module _ {LogId Entry : Type 0} (codec : Codec LogId Entry) where
  open codec use {serialize, deserialize, crc32}

  pub length-frame : (payload : List ℕ) → length (frame codec payload) ≡ 8 + length payload
  unfolding frame
  length-frame payload = omega arith

  header-frame :
      (payload tail : List ℕ)
      → length payload < 2 ^ 32
      → header (frame codec payload ++ tail) ≡ some (length payload, crc32 payload, payload ++ tail)
  unfolding header frame
  header-frame payload tail h =
      rw (le_bytes_lem (length payload) h, le_bytes_lem (crc32 payload) (codec.crc32_small payload))

  scan_payload-serialize :
      (offset : ℕ) (r : WalRecord LogId Entry) (tail : List ℕ) (later : Scan LogId Entry)
      → scan_payload codec offset
          (length (serialize r))
          (crc32 (serialize r))
          (serialize r ++ tail)
          later
        ≡ push codec r later
  unfolding scan_payload
  scan_payload-serialize offset r tail later = rw (
    length-append (serialize r) tail,
    le→ltb_false (length (serialize r) + length tail) (length (serialize r)) (omega arith),
    take-append_self (serialize r) tail,
    beq_refl (crc32 (serialize r)),
    codec.deserialize_serialize r,
  )

  scan_from-some :
      (fuel offset : ℕ) (rest : List ℕ) (len crc : ℕ) (body : List ℕ)
      → header rest ≡ some (len, crc, body)
      → scan_from codec (suc fuel) offset rest
        ≡ scan_payload codec offset len crc body
            (scan_from codec fuel (offset + 8 + len) (drop len body))
  unfolding scan_from
  scan_from-some fuel offset rest len crc body e = rw (e, scan_from)

  pub scan_from-none :
      (fuel offset : ℕ) (rest : List ℕ)
      → header rest ≡ none
      → scan_from codec (suc fuel) offset rest ≡ stop codec offset (is_empty rest)
  unfolding scan_from
  scan_from-none fuel offset rest e = rw (e, scan_from)

  -- The scan reads the frame at its head and goes on behind it.
  pub scan_from-frame :
      (fuel offset : ℕ) (r : WalRecord LogId Entry) (tail : List ℕ)
      → length (serialize r) < 2 ^ 32
      → scan_from codec (suc fuel) offset (frame codec (serialize r) ++ tail)
        ≡ push codec r (scan_from codec fuel (offset + 8 + length (serialize r)) tail)
  scan_from-frame fuel offset r tail h =
      scan_from-some fuel offset _ _ _ _ (header-frame (serialize r) tail h)
      ∙ scan_payload-serialize offset r tail _
      ∙ ap (λ rest. push codec r (scan_from codec fuel (offset + 8 + length (serialize r)) rest))
          (drop-append_self (serialize r) tail)

  -- Cut behind its header a frame shows the length that it should have.
  header-take :
      (payload : List ℕ) (n m : ℕ)
      → length payload < 2 ^ 32
      → n ≡ suc (suc (suc (suc (suc (suc (suc (suc m)))))))
      → (header (take n (frame codec payload))
          ≡ some (length payload, crc32 payload, take m payload))
        × (is_empty (take n (frame codec payload)) ≡ false)
  unfolding header frame
  header-take payload n m h e =
      rw
        (
          e,
          le_bytes_lem (length payload) h,
          le_bytes_lem (crc32 payload) (codec.crc32_small payload),
        )
        (refl, refl)

  scan_payload-short :
      (offset len crc : ℕ) (body : List ℕ) (later : Scan LogId Entry)
      → length body < len
      → scan_payload codec offset len crc body later ≡ stop codec offset false
  unfolding scan_payload
  scan_payload-short offset len crc body later h = rw (lt→ltb (length body) len h)

  -- A frame cut short is dropped, whole.
  pub scan_from-torn :
      (fuel offset n : ℕ) (r : WalRecord LogId Entry)
      → length (serialize r) < 2 ^ 32
      → n < length (frame codec (serialize r))
      → scan_from codec (suc fuel) offset (take n (frame codec (serialize r)))
        ≡ stop codec offset (is_empty (take n (frame codec (serialize r))))
  scan_from-torn fuel offset n r h k = elim (dec_lt n 8) [
    | yes few ↦ scan_from-none fuel offset _ (
        header-short (take n (frame codec (serialize r)))
          (rw (length-take_lt n (frame codec (serialize r)) (omega arith)) few))
    | no many ↦
        let payload = serialize r in
        let size : length (frame codec payload) ≡ 8 + length payload = length-frame payload in
        let m : ℕ = n - 8 in
        let (shown, more) = header-take payload n m h (omega arith) in
        let short : length (take m payload) ≡ m = length-take_lt m payload (omega arith) in
        scan_from-some fuel offset _ _ _ _ shown
        ∙ scan_payload-short offset _ _ (take m payload) _ (omega arith)
        ∙ ap (stop codec offset) (sym more)
  ]
