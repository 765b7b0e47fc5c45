-- ===== src/Regex/Context.antt =====
-- A match stays a match when more text stands around it, if no word runs on over its ends.
use claude_distant.Common.{Bool, [], ap, false, refl, true, ◌++◌, ◌∷◌, ◌≡◌}
use claude_distant.Regex.{Pos, Re, is_word, match_string, starts_word}
use claude_distant.Regex.Sound.{
  Matches, Occurs, at_start, further, m_boundary, m_empty, m_left, m_more, m_one, m_right, m_seq,
  m_stop, match_string_iff,
}
use claude_distant.Text.{Text}

abbrev pub extend : Pos → Text → Pos
extend p t = record p { rest = p.rest ++ t }

-- Whether a word character stands at the end of `u`, or before it if `u` is nothing.
unfoldable pub word_after : Bool → Text → Bool
word_after before [] = before
word_after before (c ∷ u) = word_after (is_word c) u

starts_word-append : (s t : Text) → starts_word t ≡ false → starts_word (s ++ t) ≡ starts_word s
unfolding starts_word
starts_word-append [] t h = h
starts_word-append (c ∷ s) t h = refl

Matches-extend :
    {r : Re} {p q : Pos} (t : Text)
    → starts_word t ≡ false
    → Matches r p q
    → Matches r (extend p t) (extend q t)
Matches-extend t h (m_one c s e i) = m_one c (s ++ t) (ap (λ (x : Text). x ++ t) e) i
Matches-extend t h m_stop = m_stop
Matches-extend t h (m_more c s e i m) =
    m_more c (s ++ t) (ap (λ (x : Text). x ++ t) e) i (Matches-extend t h m)
Matches-extend {p = p} t h (m_boundary b) = m_boundary (rw (starts_word-append p.rest t h) b)
Matches-extend t h m_empty = m_empty
Matches-extend t h (m_seq m m') = m_seq (Matches-extend t h m) (Matches-extend t h m')
Matches-extend t h (m_left m) = m_left (Matches-extend t h m)
Matches-extend t h (m_right m) = m_right (Matches-extend t h m)

Occurs-extend :
    {r : Re} {before : Bool} {s : Text} (t : Text)
    → starts_word t ≡ false
    → Occurs r before s
    → Occurs r before (s ++ t)
Occurs-extend t h (at_start q m) = at_start (extend q t) (Matches-extend t h m)
Occurs-extend t h (further o) = further (Occurs-extend t h o)

Occurs-shift :
    {r : Re} (u : Text) {before : Bool} {s : Text}
    → Occurs r (word_after before u) s
    → Occurs r before (u ++ s)
unfolding word_after
Occurs-shift [] o = o
Occurs-shift (c ∷ u) o = further (Occurs-shift u o)

-- A pattern that matches in `s` matches in `u ++ s ++ t`, where `u` does not end in a word
-- character and `t` does not begin with one.
pub match_string-around :
    (r : Re) (u s t : Text)
    → word_after false u ≡ false
    → starts_word t ≡ false
    → match_string r s ≡ true
    → match_string r (u ++ (s ++ t)) ≡ true
match_string-around r u s t hu ht h =
    (match_string_iff r _).1
      (Occurs-shift u (rw hu (Occurs-extend t ht ((match_string_iff r s).0 h))))
