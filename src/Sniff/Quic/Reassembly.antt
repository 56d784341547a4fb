-- ===== src/Sniff/Quic/Reassembly.antt =====
-- `QuicCryptoReassembly` of src/sniff/quic.rs: the CRYPTO stream of a connection, put together from
-- frames that come in any order.
pub mod Cells
pub mod Stream
pub mod Frames
use xtp_rs.Prelude.{
  Bool, List, Option, Res, [], drop, fail_if, false, if◌then◌else◌, length, ltb, none, ok, or_err,
  replicate, slice, some, suc, true, zero, ℕ, ◌*◌, ◌++◌, ◌+◌, ◌-◌, ◌>>=◌, ◌>>◌, ◌^◌, ◌∷◌,
}

pub data UdpSniffError : Type 0 where
  protocol_not_matched insufficient_prefix no_target parse_error : UdpSniffError
  invalid_hostname too_large : UdpSniffError

abbrev pub reassembly_cap : ℕ
reassembly_cap = 32 * 1024

pub record Reassembly : Type 0 where
  pub buf : List ℕ
  pub present : List Bool
  pub contiguous_len : ℕ
  pub last_dcid : Option (List ℕ)

abbrev pub new : Reassembly
new = record { buf = []; present = []; contiguous_len = 0; last_dcid = none }

-- usize::checked_add
abbrev pub checked_add : ℕ → ℕ → Option ℕ
checked_add a b = if ltb (a + b) (2 ^ 64) then some (a + b) else none

module _ {A : Type 0} where
  -- Vec::resize to a length that is not smaller.
  abbrev pub resize : List A → ℕ → A → List A
  resize xs n a = xs ++ replicate (n - length xs) a

  -- Writes into the slice of a vector that starts at an offset.
  abbrev pub overwrite : List A → ℕ → List A → List A
  overwrite [] offset data_bytes = []
  overwrite (x ∷ xs) (suc offset) data_bytes = x ∷ overwrite xs offset data_bytes
  overwrite (x ∷ xs) zero [] = x ∷ xs
  overwrite (x ∷ xs) zero (d ∷ ds) = d ∷ overwrite xs zero ds

-- How far the loop over `present` runs.
abbrev pub run_of_true : List Bool → ℕ
run_of_true [] = 0
run_of_true (true ∷ ps) = suc (run_of_true ps)
run_of_true (false ∷ ps) = 0

abbrev pub advance : Reassembly → Reassembly
advance r = record r {
  contiguous_len = r.contiguous_len + run_of_true (drop r.contiguous_len r.present);
}

-- What `write` does once the bounds are checked; both vectors are made long enough first.
abbrev pub store : Reassembly → ℕ → List ℕ → Reassembly
store r offset data_bytes =
    let end = offset + length data_bytes in
    let grow = ltb (length r.buf) end in
    advance (record r {
      buf = overwrite (if grow then resize r.buf end 0 else r.buf) offset data_bytes;
      present =
          overwrite (if grow then resize r.present end false else r.present) offset
            (replicate (length data_bytes) true);
    })

unfoldable pub write : Reassembly → ℕ → List ℕ → Res UdpSniffError Reassembly
write r offset data_bytes = do
  end ← or_err (checked_add offset (length data_bytes)) too_large
  fail_if (ltb reassembly_cap end) too_large
  ok (store r offset data_bytes)

unfoldable pub reset : Reassembly → Reassembly
reset r = new

unfoldable pub contiguous : Reassembly → Res UdpSniffError (List ℕ)
contiguous r = slice r.buf 0 r.contiguous_len
