-- ===== src/FileTransfer/Read/Whole.antt =====
-- What `readFileTransfer` reports is what its chunks hold, and that is the requested part.
use claude_distant.Base64.{Bytes}
use claude_distant.Common.{
  Bool, [], ap, append-nil, arith, false, ge→ltb, is_empty, length, length-append, ltb, lt→ltb, not,
  refl, some, subst, suc, sym, take, zero, ℕ, ◌++◌, ◌<◌, ◌∙◌, ◌∷◌, ◌≡◌, ◌≤◌,
}
use claude_distant.FileTransfer.{done}
use claude_distant.FileTransfer.Read.{
  LoopEnd, ReadLoop, ReadMeta, ReadOs, ReadResult, at_eof, at_limit, hex, out_of_fuel, report,
  stopped,
}
use claude_distant.FileTransfer.Read.Chunks.{reassemble}
use claude_distant.FileTransfer.Read.Loop.{Outcome, SentOf}
use claude_distant.Text.{Text}

-- What a read of `content` up to `limit` reports.
abbrev pub expected_meta : ReadOs → Text → ℕ → Bytes → ReadMeta
expected_meta os path limit content = record {
  path = path;
  size = length (take limit content);
  sha256 = hex (os.sha256 (take limit content));
  truncated = ltb limit (length content);
}

take_of_split : (xs ys : Bytes) (n : ℕ) → length xs ≡ n → take n (xs ++ ys) ≡ xs
take_of_split [] ys n e = rw (← e)
take_of_split (x ∷ xs) ys zero e = absurd (omega arith)
take_of_split (x ∷ xs) ys (suc n) e = ap (◌∷◌ x) (take_of_split xs ys n (omega arith))

take_all : (xs : Bytes) (n : ℕ) → length xs ≤ n → take n xs ≡ xs
take_all [] zero h = refl
take_all [] (suc n) h = refl
take_all (x ∷ xs) zero h = absurd (omega arith)
take_all (x ∷ xs) (suc n) h = ap (◌∷◌ x) (take_all xs n (omega arith))

not_empty-ltb :
    (xs ys : Bytes) (n : ℕ) → length xs ≡ n → not (is_empty ys) ≡ ltb n (length (xs ++ ys))
not_empty-ltb xs [] n e = sym (ge→ltb n _ (omega (arith, length-append xs [])))
not_empty-ltb xs (y ∷ ys) n e = sym (lt→ltb n _ (omega (arith, length-append xs (y ∷ ys))))

-- The chunks hold the first `limit` bytes of the content, and the report is that of these bytes.
abbrev pub IsExact : ReadOs → Text → ℕ → Bytes → ReadResult → Type 0
IsExact os path limit content r =
    (reassemble 0 r.0 ≡ some (take limit content))
    × (r.1 ≡ done (expected_meta os path limit content))

-- A result is an error or exact.
abbrev pub IsTruthful : ReadOs → Text → ℕ → Bytes → ReadResult → Type 0
IsTruthful os path limit content r =
    (info : ReadMeta) → r.1 ≡ done info → IsExact os path limit content r

-- Nothing went wrong in the loop.
abbrev pub Unstopped : LoopEnd → Type 0
Unstopped (stopped e st) = ⊥
Unstopped _ = Unit

module _ (os : ReadOs) (path : Text) (limit : ℕ) (content : Bytes) where
  IsExact-report :
      (st : ReadLoop) (more : Bool)
      → SentOf content st
      → take limit content ≡ st.hashed
      → more ≡ ltb limit (length content)
      → IsExact os path limit content (
        st.chunks,
        done (record {
          path = path;
          size = st.sent;
          sha256 = hex (os.sha256 st.hashed);
          truncated = more;
        }),
      )
  IsExact-report st more s sent m = (s.assembled ∙ ap some (sym sent), rw (sent, s.counted, m))

  report_at_limit :
      (st : ReadLoop)
      → SentOf content st
      → length st.hashed ≡ limit
      → IsExact os path limit content (report os path (at_limit st))
  unfolding report
  report_at_limit st s e =
      IsExact-report st _ s
        (ap (take limit) (sym s.split) ∙ take_of_split st.hashed st.file.rest limit e)
        (not_empty-ltb st.hashed st.file.rest limit e
          ∙ ap (λ (x : Bytes). ltb limit (length x)) s.split)

  report_at_eof :
      (st : ReadLoop)
      → SentOf content st
      → st.file.rest ≡ []
      → length st.hashed < limit
      → IsExact os path limit content (report os path (at_eof st))
  unfolding report
  report_at_eof st s ended short =
      let all : st.hashed ≡ content =
        sym (append-nil st.hashed) ∙ ap (◌++◌ st.hashed) (sym ended) ∙ s.split in
      let fits : length content < limit = subst (λ (x : Bytes). length x < limit) all short in
      IsExact-report st false s (take_all content limit (omega arith) ∙ sym all)
        (sym (ge→ltb limit (length content) (omega arith)))

  pub report-IsTruthful :
      (end : LoopEnd)
      → Outcome content limit end
      → IsTruthful os path limit content (report os path end)
  report-IsTruthful (at_limit st) (s, e) info h = report_at_limit st s e
  report-IsTruthful (at_eof st) (s, ended, short) info h = report_at_eof st s ended short
  report-IsTruthful (stopped e st) o info h = unfold report in cc
  report-IsTruthful out_of_fuel o info h = absurd o

  pub report-IsExact :
      (end : LoopEnd)
      → Outcome content limit end
      → Unstopped end
      → IsExact os path limit content (report os path end)
  report-IsExact (at_limit st) (s, e) u = report_at_limit st s e
  report-IsExact (at_eof st) (s, ended, short) u = report_at_eof st s ended short
  report-IsExact (stopped e st) o u = absurd u
  report-IsExact out_of_fuel o u = absurd o
