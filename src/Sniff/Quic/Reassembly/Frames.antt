-- ===== src/Sniff/Quic/Reassembly/Frames.antt =====
-- Frames of one stream, in any order, overlapping or repeated, written to the reassembly of
-- src/sniff/quic.rs.
use xtp_rs.Prelude.{
  All, Bool, List, Res, [], ap, arith, err, get_elem?, inl, inr, length, le→ltb-false, lt→ltb, ok,
  refl, slice-ok, some, subst, sym, take, true, ℕ, ◌+◌, ◌-◌, ◌<◌, ◌>>=◌, ◌^◌, ◌∙◌, ◌∷◌, ◌≡◌, ◌≤◌,
  ◌⊎◌,
}
use xtp_rs.Sniff.Quic.Reassembly.{
  Reassembly, UdpSniffError, contiguous, new, reassembly_cap, run_of_true, store, too_large, write,
}
use xtp_rs.Sniff.Quic.Reassembly.Cells.{
  get-run_of_true, run_of_true-drop, run_of_true-le, take-agree,
}
use xtp_rs.Sniff.Quic.Reassembly.Stream.{
  Agrees, CutFrom, WellFormed, new-Agrees, new-WellFormed, store-Agrees, store-WellFormed,
  store_keeps, store_sets,
}

abbrev pub Frame : Type 0
Frame = ℕ × List ℕ

unfoldable pub write_frames : Reassembly → List Frame → Res UdpSniffError Reassembly
write_frames r [] = ok r
write_frames r ((offset, ds) ∷ frames) = do r' ← write r offset ds; write_frames r' frames

-- A frame of the stream that ends within the capacity.
abbrev pub FrameOf : List ℕ → Frame → Type 0
FrameOf stream f = (f.0 + length f.1 ≤ reassembly_cap) × CutFrom stream f.0 f.1

-- Some frame holds the byte at a position.
abbrev pub Covered : List Frame → ℕ → Type 0
Covered [] i = ⊥
Covered ((offset, ds) ∷ frames) i =
    ((j : ℕ) × (j < length ds) × (i ≡ offset + j)) ⊎ Covered frames i

write-store :
    (r : Reassembly) (offset : ℕ) (ds : List ℕ)
    → offset + length ds ≤ reassembly_cap
    → write r offset ds ≡ ok (store r offset ds)
unfolding write
write-store r offset ds h =
    rw
      (
        lt→ltb (offset + length ds) (2 ^ 64) (omega arith),
        le→ltb-false reassembly_cap (offset + length ds) h,
      )
      refl

write_frames-cons :
    (r : Reassembly) (offset : ℕ) (ds : List ℕ) (frames : List Frame) (last : Reassembly)
    → offset + length ds ≤ reassembly_cap
    → write_frames (store r offset ds) frames ≡ ok last
    → write_frames r ((offset, ds) ∷ frames) ≡ ok last
unfolding write_frames
write_frames-cons r offset ds frames last h w = rw (write-store r offset ds h) w

-- What a run of writes ends in.
record Written (stream : List ℕ) (r : Reassembly) (frames : List Frame) : Type 0 where
  last : Reassembly
  written : write_frames r frames ≡ ok last
  well_formed : WellFormed last
  agrees : Agrees stream last
  kept : (i : ℕ) → get_elem? r.present i ≡ some true → get_elem? last.present i ≡ some true
  covered : (i : ℕ) → Covered frames i → get_elem? last.present i ≡ some true

write_frames_lem :
    (stream : List ℕ) (r : Reassembly) (frames : List Frame)
    → WellFormed r
    → Agrees stream r
    → All (FrameOf stream) frames
    → Written stream r frames
write_frames_lem stream r [] wf ag h = record {
  last = r;
  written = unfold write_frames in refl;
  well_formed = wf;
  agrees = ag;
  kept = λ i p. p;
  covered = λ i c. absurd c;
}
write_frames_lem stream r ((offset, ds) ∷ frames) wf ag h =
    let w =
      write_frames_lem stream (store r offset ds) frames (store-WellFormed r offset ds wf h.0.0)
        (store-Agrees r offset ds wf stream ag h.0.1) h.1 in
    record {
      last = w.last;
      written = write_frames-cons r offset ds frames w.last h.0.0 w.written;
      well_formed = w.well_formed;
      agrees = w.agrees;
      kept = λ i p. w.kept i (store_keeps r offset ds wf i p);
      covered = λ i c. elim c [
        | inl (j, lt, e) ↦ w.kept i (
            subst (λ k. get_elem? (store r offset ds).present k ≡ some true) (sym e)
              (store_sets r offset ds wf j lt))
        | inr d ↦ w.covered i d
      ];
    }

run_of_true-ge :
    (ps : List Bool) (n : ℕ) → ((i : ℕ) → i < n → get_elem? ps i ≡ some true) → n ≤ run_of_true ps
run_of_true-ge ps n h = omega (arith, run_of_true-drop n ps h)

sub_zero : (n : ℕ) → n - 0 ≡ n
sub_zero n = omega arith

contiguous_lem :
    (stream : List ℕ) (r : Reassembly)
    → WellFormed r
    → Agrees stream r
    → contiguous r ≡ ok (take r.contiguous_len stream)
unfolding contiguous
contiguous_lem stream r wf ag =
    let le : r.contiguous_len ≤ length r.buf =
      omega (arith, run_of_true-le r.present, wf.run, wf.same_length) in
    slice-ok r.buf 0 r.contiguous_len (omega arith) le
    ∙ ap (λ n. ok (take n r.buf)) (sub_zero r.contiguous_len)
    ∙ ap ok (
        take-agree r.contiguous_len r.buf stream le
          (λ i lt. ag i (get-run_of_true r.present i (subst (λ n. i < n) wf.run lt))))

-- The reassembly after some frames of a stream: its contiguous bytes are a prefix of the stream
-- that reaches as far as the frames cover the stream without a gap.
pub record Reassembled (stream : List ℕ) (frames : List Frame) : Type 0 where
  pub last : Reassembly
  pub written : write_frames new frames ≡ ok last
  pub prefix : contiguous last ≡ ok (take last.contiguous_len stream)
  pub reaches : (n : ℕ) → ((i : ℕ) → i < n → Covered frames i) → n ≤ last.contiguous_len

-- Frames cut from one stream and ending within the capacity are all taken, in whatever order they
-- come, and what the parser is then given is a prefix of that stream, at least as long as every
-- prefix that the frames cover.
pub write_frames-Reassembled :
    (stream : List ℕ) (frames : List Frame)
    → All (FrameOf stream) frames
    → Reassembled stream frames
write_frames-Reassembled stream frames h =
    let w = write_frames_lem stream new frames new-WellFormed (new-Agrees stream) h in
    record {
      last = w.last;
      written = w.written;
      prefix = contiguous_lem stream w.last w.well_formed w.agrees;
      reaches = λ n c.
          subst (λ k. n ≤ k) (sym w.well_formed.run)
            (run_of_true-ge w.last.present n (λ i lt. w.covered i (c i lt)));
    }

-- A frame that would end past the capacity is refused as too large.
pub write-too_large :
    (r : Reassembly) (offset : ℕ) (ds : List ℕ)
    → reassembly_cap < offset + length ds
    → write r offset ds ≡ err too_large
unfolding write
write-too_large r offset ds h = ground arith
