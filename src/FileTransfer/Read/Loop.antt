-- ===== src/FileTransfer/Read/Loop.antt =====
-- The loop of `readFileTransfer` ends, and sends the requested part of the file.
use claude_distant.Base64.{Bytes, encode}
use claude_distant.Base64.RoundTrip.{AreBytes, decode_string-encode}
use claude_distant.Common.{
  Bool-cases, Option, Option-cases, [], ap, append-nil, append_assoc, arith, inl, inr, leb, length,
  length-append, length-take, ltb, ltb→lt, none, refl, some, subst, suc, sym, take,
  take-append-drop, zero, ℕ, ◌++◌, ◌+◌, ◌-◌, ◌<◌, ◌∙◌, ◌∷◌, ◌≡◌, ◌≢◌, ◌≤◌,
}
use claude_distant.FileTransfer.{OsError}
use claude_distant.FileTransfer.Read.{
  Emit, LoopEnd, ReadEnd, ReadLoop, Reader, after_deliver, after_read, at_eof, at_limit, deliver,
  end_of, hand_over, next_size, out_of_fuel, read_eof, read_error, read_full, read_full_buffer,
  read_loop, stopped,
}
use claude_distant.FileTransfer.Read.Chunks.{reassemble, reassemble-concat}

-- What has been sent and what is still to be read make up the file, and the chunks hold what has
-- been sent.
pub record SentOf (content : Bytes) (st : ReadLoop) : Type 0 where
  pub split : st.hashed ++ st.file.rest ≡ content
  pub assembled : reassemble 0 st.chunks ≡ some st.hashed
  pub counted : st.sent ≡ length st.hashed

-- Between two rounds.
pub record Going (content : Bytes) (limit : ℕ) (st : ReadLoop) : Type 0 where
  pub so_far : SentOf content st
  pub numbered : st.seq ≡ length st.chunks
  pub within : st.sent ≤ limit

-- What one `io.ReadFull` gives.
record ReadOf (n : ℕ) (f : Reader) (bytes : Bytes) (end : ReadEnd) (file : Reader) : Type 0 where
  split : bytes ++ file.rest ≡ f.rest
  at_most : length bytes ≤ n
  full_means : end ≡ read_full_buffer → length bytes ≡ n
  short_means : end ≢ read_full_buffer → (file.rest ≡ []) × (length bytes < n)

end_of-short : (o : Option OsError) → end_of o ≢ read_full_buffer
end_of-short none = λ e. cc
end_of-short (some x) = λ e. cc

read_full_lem :
    (n : ℕ) (f : Reader) → ReadOf n f (read_full n f).0 (read_full n f).1 (read_full n f).2
unfolding read_full
read_full_lem n f = elim (Bool-cases (leb n (length f.rest))) [
  | inl enough ↦
      let fits : n ≤ length f.rest = ground arith in
      let size : length (take n f.rest) ≡ n = omega (arith, length-take n f.rest) in
      rw enough (record {
        split = take-append-drop n f.rest;
        at_most = omega arith;
        full_means = λ _. size;
        short_means = λ h. absurd (h refl);
      })
  | inr short ↦
      let less : length f.rest < n = ground arith in
      rw short (record {
        split = append-nil f.rest;
        at_most = omega arith;
        full_means = λ h. absurd (end_of-short f.broken h);
        short_means = λ _. (refl, less);
      })
]

-- What the loop's end means for a file with this content.
abbrev pub Outcome : Bytes → ℕ → LoopEnd → Type 0
Outcome content limit (at_limit st) = SentOf content st × (length st.hashed ≡ limit)
Outcome content limit (at_eof st) =
    SentOf content st × (st.file.rest ≡ []) × (length st.hashed < limit)
Outcome content limit (stopped e st) = SentOf content st
Outcome content limit out_of_fuel = ⊥

AreBytes-split : (xs ys : Bytes) → AreBytes (xs ++ ys) → AreBytes xs × AreBytes ys
AreBytes-split [] ys h = (tt, h)
AreBytes-split (x ∷ xs) ys h = let (a, b) = AreBytes-split xs ys h.1 in ((h.0, a), b)

module _ (content : Bytes) (limit : ℕ) (valid : AreBytes content) where
  hand_over-SentOf :
      (st : ReadLoop) (bytes : Bytes) (file : Reader)
      → Going content limit st
      → bytes ++ file.rest ≡ st.file.rest
      → SentOf content (hand_over bytes file st)
  unfolding hand_over
  hand_over-SentOf st bytes file g e =
      let whole : st.hashed ++ (bytes ++ file.rest) ≡ content =
        ap (◌++◌ st.hashed) e ∙ g.so_far.split in
      let left = AreBytes-split st.hashed (bytes ++ file.rest) (subst AreBytes (sym whole) valid) in
      let bytes_valid = AreBytes-split bytes file.rest left.1 in
      record {
        split = append_assoc st.hashed bytes file.rest ∙ whole;
        assembled =
            reassemble-concat st.chunks 0 _ g.so_far.assembled (omega (arith, g.numbered))
              (decode_string-encode bytes bytes_valid.0);
        counted = omega (arith, g.so_far.counted, length-append st.hashed bytes);
      }

  -- The state behind the delivery of what was read, and what it takes for a next round.
  record Delivered (st : ReadLoop) (bytes : Bytes) (file : Reader) (d : Option OsError × ReadLoop)
      : Type 0 where
    sent_of : SentOf content d.1
    file_is : d.1.file ≡ file
    grown : d.1.sent ≡ st.sent + length bytes
    numbered : d.0 ≡ none → d.1.seq ≡ length d.1.chunks

  deliver_lem :
      (emit : Emit) (bytes : Bytes) (file : Reader) (st : ReadLoop)
      → Going content limit st
      → bytes ++ file.rest ≡ st.file.rest
      → Delivered st bytes file (deliver emit bytes file st)
  unfolding deliver
  deliver_lem emit [] file st g e = record {
    sent_of = record {
      split = ap (◌++◌ st.hashed) e ∙ g.so_far.split;
      assembled = g.so_far.assembled;
      counted = g.so_far.counted;
    };
    file_is = refl;
    grown = omega arith;
    numbered = λ _. g.numbered;
  }
  deliver_lem emit (x ∷ bytes) file st g e =
      let s = hand_over-SentOf st (x ∷ bytes) file g e in
      elim (Option-cases (emit st.seq (encode (x ∷ bytes)))) [
        | inl ok ↦
            rw (ok, deliver)
              (record {
                sent_of = record { split = s.split; assembled = s.assembled; counted = s.counted };
                file_is = refl;
                grown = refl;
                numbered = λ _. omega (
                  arith,
                  length-append st.chunks
                      (record { seq = st.seq; data_base64 = encode (x ∷ bytes) } ∷ []),
                  g.numbered,
                );
              })
        | inr (err, bad) ↦
            rw (bad, deliver)
              (record { sent_of = s; file_is = refl; grown = refl; numbered = λ h. cc })
      ]

  module _ (chunk : ℕ) (positive : 0 < chunk) where
    -- The rest of the loop, for every state that is nearer to the limit.
    abbrev Later : (ReadLoop → LoopEnd) → ℕ → Type 0
    Later again sent =
        (st : ReadLoop) → Going content limit st → sent < st.sent → Outcome content limit (again st)

    after_deliver_lem :
        (st : ReadLoop) (bytes : Bytes) (file : Reader) (d : Option OsError × ReadLoop)
        (end : ReadEnd) (again : ReadLoop → LoopEnd)
        → Delivered st bytes file d
        → st.sent < limit
        → ReadOf (next_size limit chunk st.sent) st.file bytes end file
        → Later again st.sent
        → Outcome content limit (after_deliver d end again)
    unfolding after_deliver after_read
    after_deliver_lem st bytes file (some e, st') end again d lt r later = d.sent_of
    after_deliver_lem st bytes file (none, st') (read_error e) again d lt r later = d.sent_of
    after_deliver_lem st bytes file (none, st') read_eof again d lt r later =
        let (ended, short) = r.short_means (λ h. cc) in
        (
          d.sent_of,
          ap (λ (f : Reader). f.rest) d.file_is ∙ ended,
          ground (arith, d.sent_of.counted, d.grown),
        )
    after_deliver_lem st bytes file (none, st') read_full_buffer again d lt r later =
        let size = r.full_means refl in
        later st'
          (record {
            so_far = d.sent_of;
            numbered = d.numbered refl;
            within = ground (arith, d.grown);
          })
          (ground (arith, d.grown))

    -- The loop never runs out of fuel, and wherever it ends the chunks hold what was read.
    pub read_loop-Outcome :
        (emit : Emit) (fuel : ℕ) (st : ReadLoop)
        → Going content limit st
        → limit - st.sent < fuel
        → Outcome content limit (read_loop emit limit chunk fuel st)
    unfolding read_loop
    read_loop-Outcome emit zero st g h = absurd (omega arith)
    read_loop-Outcome emit (suc fuel) st g h = elim (Bool-cases (ltb st.sent limit)) [
      | inr reached ↦ rw (reached, read_loop) (g.so_far, ground (arith, g.within, g.so_far.counted))
      | inl more ↦
          let lt : st.sent < limit = ltb→lt st.sent limit more in
          let n = next_size limit chunk st.sent in
          let r = read_full_lem n st.file in
          let (bytes, end, file) = read_full n st.file in
          rw (more, read_loop)
            (after_deliver_lem st bytes file (deliver emit bytes file st) end _
              (deliver_lem emit bytes file st g r.split) lt r
              (λ st' g' lt'. read_loop-Outcome emit fuel st' g' (omega (arith, g'.within))))
    ]
