-- ===== src/Pager/Wal/RoundTrip.antt =====
-- A log of frames that the writer appended is read back frame by frame, up to a torn tail.
use mathlib.Core.List.{append_assoc}
use sqlite_rs.Prelude.{
  ℕ, zero, suc, ◌+◌, ◌*◌, ◌^◌, ◌≤◌, ◌<◌, ◌≡◌, refl, sym, ap, ◌∙◌, arith, leb, le→leb, lt→leb_false,
  true, false, List, [], ◌∷◌, ◌++◌, length, length-append,
}
use sqlite_rs.Prelude.Bytes.{All, IsU32, saturating_add}
use sqlite_rs.Pager.Wal.Header.{WalHeader}
use sqlite_rs.Pager.Wal.Frames.{Frame, frame_size, valid_loop}
use sqlite_rs.Pager.Wal.Writer.{frame_header, after_append, frame_bytes}
use sqlite_rs.Pager.Wal.Commits.{valid_frames}
use sqlite_rs.Pager.Wal.Reads.{
  BothU32, after_append-BothU32, length-frame_header, check_frame-frame_bytes,
  read_frame-frame_bytes,
}

-- A frame of the log's page size, with numbers of 32 bits.
abbrev pub IsFrame : WalHeader → Frame → Type 0
IsFrame h f = (length (f.content) ≡ h.page_size) × IsU32 (f.page_number) × IsU32 (f.db_size)

module _ (from_ne : List ℕ → ℕ) (h : WalHeader) where
  abbrev pub bytes_of : Frame → ℕ × ℕ → List ℕ
  bytes_of f running = frame_bytes from_ne h (f.page_number) (f.content) (f.db_size) running

  abbrev pub sum_after : Frame → ℕ × ℕ → ℕ × ℕ
  sum_after f running = after_append from_ne h (f.page_number) (f.content) (f.db_size) running

  -- The bytes of frames appended one after the other, and the checksum that they end with.
  unfoldable pub frames_bytes : List Frame → ℕ × ℕ → List ℕ
  frames_bytes [] running = []
  frames_bytes (f ∷ fs) running = bytes_of f running ++ frames_bytes fs (sum_after f running)

  unfoldable pub frames_sum : List Frame → ℕ × ℕ → ℕ × ℕ
  frames_sum [] running = running
  frames_sum (f ∷ fs) running = frames_sum fs (sum_after f running)

  pub length-bytes_of :
      (f : Frame) (running : ℕ × ℕ)
      → length (f.content) ≡ h.page_size
      → length (bytes_of f running) ≡ 24 + h.page_size
  unfolding frame_bytes
  length-bytes_of f running e =
      let header = frame_header h (f.page_number) (f.db_size) (sum_after f running) in
      omega (
        arith,
        length-append header (f.content),
        length-frame_header h (f.page_number) (f.db_size) (sum_after f running),
        e,
      )

  pub length-frames_bytes :
      (fs : List Frame) (running : ℕ × ℕ)
      → All (IsFrame h) fs
      → length (frames_bytes fs running) ≡ length fs * (24 + h.page_size)
  unfolding frames_bytes
  length-frames_bytes [] running all = omega arith
  length-frames_bytes (f ∷ fs) running all = grind (
    arith,
    length-append (bytes_of f running) (frames_bytes fs (sum_after f running)),
    length-bytes_of f running (all.0.0),
    length-frames_bytes fs (sum_after f running) (all.1),
  )

  module _ (salt1_small : IsU32 (h.salt1)) (salt2_small : IsU32 (h.salt2)) where
    regroup :
        (a b c d : List ℕ)
        → (a ++ ((b ++ c) ++ d) ≡ a ++ (b ++ (c ++ d)))
          × (a ++ (b ++ (c ++ d)) ≡ (a ++ b) ++ (c ++ d))
    regroup a b c d = (ap (λ t. a ++ t) (append_assoc b c d), sym (append_assoc a b (c ++ d)))

    room :
        (front back : List ℕ) (f : Frame) (offset : ℕ) (running : ℕ × ℕ)
        → IsFrame h f
        → offset ≡ length front
        → offset + h.page_size < 2 ^ 61
        → leb
            (saturating_add offset (frame_size h))
            (length (front ++ (bytes_of f running ++ back)))
          ≡ true
    unfolding frame_size
    room front back f offset running frame at small = le→leb _ _ (
        omega (
          arith,
          at,
          small,
          length-bytes_of f running (frame.0),
          length-append front (bytes_of f running ++ back),
          length-append (bytes_of f running) back,
        ))

    frames_step :
        (front back : List ℕ) (f : Frame) (fuel offset : ℕ) (running : ℕ × ℕ)
        → IsFrame h f
        → BothU32 running
        → offset ≡ length front
        → offset + h.page_size < 2 ^ 61
        → valid_frames from_ne (suc fuel) h (front ++ (bytes_of f running ++ back)) offset running
          ≡ f
            ∷ valid_frames from_ne fuel h
                (front ++ (bytes_of f running ++ back))
                (saturating_add offset (frame_size h))
                (sum_after f running)
    unfolding valid_frames
    frames_step front back f fuel offset running frame both at small =
        rw
          (
            room front back f offset running frame at small,
            read_frame-frame_bytes from_ne h salt1_small salt2_small (f.content) (f.page_number)
                (f.db_size) running both (frame.0) front back offset (frame.1) (frame.2) at small,
          )
          refl

    loop_step :
        (front back : List ℕ) (f : Frame) (fuel offset : ℕ) (running : ℕ × ℕ)
        → IsFrame h f
        → BothU32 running
        → offset ≡ length front
        → offset + h.page_size < 2 ^ 61
        → valid_loop from_ne (suc fuel) h (front ++ (bytes_of f running ++ back)) offset running
          ≡ valid_loop from_ne fuel h
              (front ++ (bytes_of f running ++ back))
              (saturating_add offset (frame_size h))
              (sum_after f running)
    unfolding valid_loop
    loop_step front back f fuel offset running frame both at small =
        rw
          (
            room front back f offset running frame at small,
            check_frame-frame_bytes from_ne h salt1_small salt2_small (f.content) (f.page_number)
                (f.db_size) running both (frame.0) front back offset at small,
          )
          refl

    -- Fewer bytes than a frame's are no frame.
    no_room :
        (front tail : List ℕ) (offset : ℕ)
        → offset ≡ length front
        → offset + h.page_size < 2 ^ 60
        → length tail < 24 + h.page_size
        → leb (saturating_add offset (frame_size h)) (length (front ++ tail)) ≡ false
    unfolding frame_size
    no_room front tail offset at small short =
        lt→leb_false _ _ (omega (arith, at, small, short, length-append front tail))

    -- The position after a frame.
    moved :
        (front : List ℕ) (f : Frame) (offset : ℕ) (running : ℕ × ℕ)
        → IsFrame h f
        → offset ≡ length front
        → offset + h.page_size < 2 ^ 60
        → saturating_add offset (frame_size h) ≡ length (front ++ bytes_of f running)
    unfolding frame_size
    moved front f offset running frame at small = omega (
      arith,
      at,
      small,
      length-append front (bytes_of f running),
      length-bytes_of f running (frame.0),
    )

    pub valid_frames-frames_bytes :
        (fs : List Frame) (fuel : ℕ) (front tail : List ℕ) (offset : ℕ) (running : ℕ × ℕ)
        → All (IsFrame h) fs
        → BothU32 running
        → length fs ≤ fuel
        → offset ≡ length front
        → offset + length (frames_bytes fs running) + h.page_size < 2 ^ 60
        → length tail < 24 + h.page_size
        → valid_frames from_ne fuel h (front ++ (frames_bytes fs running ++ tail)) offset running
          ≡ fs
    unfolding valid_frames frames_bytes
    valid_frames-frames_bytes [] zero front tail offset running all both enough at small short =
        refl
    valid_frames-frames_bytes [] (suc fuel) front tail offset running all both enough at small
          short =
        rw (no_room front tail offset at (omega (arith, small)) short) refl
    valid_frames-frames_bytes (f ∷ fs) zero front tail offset running all both enough at small
          short =
        absurd (omega (arith, enough))
    valid_frames-frames_bytes (f ∷ fs) (suc fuel) front tail offset running all both enough at small
          short =
        let sum = sum_after f running in
        let (inner, outer) = regroup front (bytes_of f running) (frames_bytes fs sum) tail in
        let next = saturating_add offset (frame_size h) in
        let near : offset + h.page_size < 2 ^ 60 = omega (arith, small) in
        let here = moved front f offset running (all.0) at near in
        let size = length-append (bytes_of f running) (frames_bytes fs sum) in
        ap (λ t. valid_frames from_ne (suc fuel) h t offset running) inner
        ∙ frames_step front (frames_bytes fs sum ++ tail) f fuel offset running (all.0) both at
            (omega (arith, small))
        ∙ ap (λ t. f ∷ valid_frames from_ne fuel h t next sum) outer
        ∙ ap (λ t. f ∷ t)
            (valid_frames-frames_bytes fs fuel (front ++ bytes_of f running) tail next sum (all.1)
              (after_append-BothU32 from_ne h salt1_small salt2_small (f.content) (f.page_number)
                (f.db_size) running both (all.0.0))
              (omega (arith, enough)) here
              (omega (arith, here, size, small, at, length-append front (bytes_of f running)))
              short)

    pub valid_loop-frames_bytes :
        (fs : List Frame) (fuel : ℕ) (front tail : List ℕ) (offset : ℕ) (running : ℕ × ℕ)
        → All (IsFrame h) fs
        → BothU32 running
        → length fs ≤ fuel
        → offset ≡ length front
        → offset + length (frames_bytes fs running) + h.page_size < 2 ^ 60
        → length tail < 24 + h.page_size
        → valid_loop from_ne fuel h (front ++ (frames_bytes fs running ++ tail)) offset running
          ≡ (offset + length (frames_bytes fs running), frames_sum fs running)
    unfolding valid_loop frames_bytes frames_sum
    valid_loop-frames_bytes [] zero front tail offset running all both enough at small short =
        ap (λ (n : ℕ). (n, running)) (omega arith)
    valid_loop-frames_bytes [] (suc fuel) front tail offset running all both enough at small short =
        rw (no_room front tail offset at (omega (arith, small)) short)
          (ap (λ (n : ℕ). (n, running)) (omega arith))
    valid_loop-frames_bytes (f ∷ fs) zero front tail offset running all both enough at small short =
        absurd (omega (arith, enough))
    valid_loop-frames_bytes (f ∷ fs) (suc fuel) front tail offset running all both enough at small
          short =
        let sum = sum_after f running in
        let (inner, outer) = regroup front (bytes_of f running) (frames_bytes fs sum) tail in
        let next = saturating_add offset (frame_size h) in
        let near : offset + h.page_size < 2 ^ 60 = omega (arith, small) in
        let here = moved front f offset running (all.0) at near in
        let size = length-append (bytes_of f running) (frames_bytes fs sum) in
        ap (λ t. valid_loop from_ne (suc fuel) h t offset running) inner
        ∙ loop_step front (frames_bytes fs sum ++ tail) f fuel offset running (all.0) both at
            (omega (arith, small))
        ∙ ap (λ t. valid_loop from_ne fuel h t next sum) outer
        ∙ valid_loop-frames_bytes fs fuel (front ++ bytes_of f running) tail next sum (all.1)
            (after_append-BothU32 from_ne h salt1_small salt2_small (f.content) (f.page_number)
              (f.db_size) running both (all.0.0))
            (omega (arith, enough)) here
            (omega (arith, here, size, small, at, length-append front (bytes_of f running))) short
        ∙ ap (λ (n : ℕ). (n, frames_sum fs sum))
            (omega (arith, here, size, at, length-append front (bytes_of f running)))
