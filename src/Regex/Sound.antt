-- ===== src/Regex/Sound.antt =====
-- The matcher decides the relation that the patterns stand for.
use claude_distant.Common.{
  Bool, [], and-eq-true, arith, false, inl, inr, or-eq-true, refl, true, ℕ, ◌↔◌, ◌∷◌, ◌≡◌,
}
use claude_distant.Regex.{
  Class, Pos, Re, accept, alternative, boundary, differ, in_class, is_word, many, match_string,
  nothing, occurs, one, run, run_many, run_one, sequence, starts_word, step_over,
}
use claude_distant.Text.{Text}

-- `Matches r p q`: `r` matches the text between the positions `p` and `q`.
pub data Matches : Re → Pos → Pos → Type 0 where
  m_one :
      {cl : Class} {p : Pos} (c : ℕ) (s : Text)
      → p.rest ≡ c ∷ s
      → in_class cl c ≡ true
      → Matches (one cl) p (step_over c s)
  m_stop : {cl : Class} {p : Pos} → Matches (many cl) p p
  m_more :
      {cl : Class} {p q : Pos} (c : ℕ) (s : Text)
      → p.rest ≡ c ∷ s
      → in_class cl c ≡ true
      → Matches (many cl) (step_over c s) q
      → Matches (many cl) p q
  m_boundary : {p : Pos} → differ p.after_word (starts_word p.rest) ≡ true → Matches boundary p p
  m_empty : {p : Pos} → Matches nothing p p
  m_seq : {r r' : Re} {p q t : Pos} → Matches r p q → Matches r' q t → Matches (sequence r r') p t
  m_left : {r r' : Re} {p q : Pos} → Matches r p q → Matches (alternative r r') p q
  m_right : {r r' : Re} {p q : Pos} → Matches r' p q → Matches (alternative r r') p q

-- A match that begins at some position of the text.
pub data Occurs (r : Re) : Bool → Text → Type 0 where
  at_start :
      {before : Bool} {s : Text} (q : Pos)
      → Matches r (record { after_word = before; rest = s }) q
      → Occurs r before s
  further : {before : Bool} {c : ℕ} {s : Text} → Occurs r (is_word c) s → Occurs r before (c ∷ s)

run_one_complete :
    (cl : Class) (k : Pos → Bool) (rest : Text) (c : ℕ) (s : Text)
    → rest ≡ c ∷ s
    → in_class cl c ≡ true
    → k (step_over c s) ≡ true
    → run_one cl k rest ≡ true
unfolding run_one
run_one_complete cl k [] c s e t h = cc
run_one_complete cl k (d ∷ u) c s e t h = ground arith

run_many-stop :
    (cl : Class) (k : Pos → Bool) (before : Bool) (rest : Text)
    → k (record { after_word = before; rest = rest }) ≡ true
    → run_many cl k before rest ≡ true
unfolding run_many
run_many-stop cl k before [] h = h
run_many-stop cl k before (c ∷ s) h = ground arith

run_many-more :
    (cl : Class) (k : Pos → Bool) (before : Bool) (rest : Text) (c : ℕ) (s : Text)
    → rest ≡ c ∷ s
    → in_class cl c ≡ true
    → run_many cl k (is_word c) s ≡ true
    → run_many cl k before rest ≡ true
unfolding run_many
run_many-more cl k before [] c s e t h = cc
run_many-more cl k before (d ∷ u) c s e t h = ground arith

pub run_complete :
    {r : Re} {p q : Pos} (k : Pos → Bool) → Matches r p q → k q ≡ true → run r k p ≡ true
unfolding run
run_complete {p = p} k (m_one {cl} c s e t) h = run_one_complete cl k p.rest c s e t h
run_complete {p = p} k (m_stop {cl}) h = run_many-stop cl k p.after_word p.rest h
run_complete {p = p} k (m_more {cl} c s e t m) h =
    run_many-more cl k p.after_word p.rest c s e t (run_complete k m h)
run_complete k (m_boundary b) h = ground arith
run_complete k m_empty h = h
run_complete k (m_seq {r' = r'} m m') h = run_complete (run r' k) m (run_complete k m' h)
run_complete k (m_left m) h = ground (arith, run_complete k m h)
run_complete k (m_right m) h = ground (arith, run_complete k m h)

-- A position that `k` accepts, with the match that reaches it.
abbrev pub Found : Re → (Pos → Bool) → Pos → Type 0
Found r k p = (q : Pos) × Matches r p q × (k q ≡ true)

run_one_sound :
    (cl : Class) (k : Pos → Bool) (before : Bool) (rest : Text)
    → run_one cl k rest ≡ true
    → Found (one cl) k (record { after_word = before; rest = rest })
unfolding run_one
run_one_sound cl k before [] h = cc
run_one_sound cl k before (c ∷ s) h = (step_over c s, m_one c s refl (ground arith), ground arith)

Found-more :
    (cl : Class) (k : Pos → Bool) (before : Bool) (c : ℕ) (s : Text)
    → in_class cl c ≡ true
    → Found (many cl) k (step_over c s)
    → Found (many cl) k (record { after_word = before; rest = c ∷ s })
Found-more cl k before c s t (q, m, h) = (q, m_more c s refl t m, h)

run_many_sound :
    (cl : Class) (k : Pos → Bool) (before : Bool) (rest : Text)
    → run_many cl k before rest ≡ true
    → Found (many cl) k (record { after_word = before; rest = rest })
unfolding run_many
run_many_sound cl k before [] h = (record { after_word = before; rest = [] }, m_stop, h)
run_many_sound cl k before (c ∷ s) h = elim (or-eq-true _ _ h) [
  | inl now ↦ (record { after_word = before; rest = c ∷ s }, m_stop, now)
  | inr more ↦
      let (t, deeper) = and-eq-true (in_class cl c) _ more in
      Found-more cl k before c s t (run_many_sound cl k (is_word c) s deeper)
]

-- Whatever the matcher accepts, the relation derives.
pub run_sound : (r : Re) (k : Pos → Bool) (p : Pos) → run r k p ≡ true → Found r k p
unfolding run
run_sound (one cl) k p h = run_one_sound cl k p.after_word p.rest h
run_sound (many cl) k p h = run_many_sound cl k p.after_word p.rest h
run_sound boundary k p h = let (b, ok) = and-eq-true _ _ h in (p, m_boundary b, ok)
run_sound nothing k p h = (p, m_empty, h)
run_sound (sequence r r') k p h =
    let (q, m, h') = run_sound r (run r' k) p h in
    let (t, m', h'') = run_sound r' k q h' in (t, m_seq m m', h'')
run_sound (alternative r r') k p h = elim (or-eq-true _ _ h) [
  | inl l ↦ let (q, m, ok) = run_sound r k p l in (q, m_left m, ok)
  | inr l ↦ let (q, m, ok) = run_sound r' k p l in (q, m_right m, ok)
]

occurs_complete : {r : Re} {before : Bool} {s : Text} → Occurs r before s → occurs r before s ≡ true
unfolding occurs
occurs_complete {s = []} (at_start q m) = run_complete accept m refl
occurs_complete {s = c ∷ s} (at_start q m) = ground (arith, run_complete accept m refl)
occurs_complete (further o) = ground (arith, occurs_complete o)

occurs_sound : (r : Re) (before : Bool) (s : Text) → occurs r before s ≡ true → Occurs r before s
unfolding occurs
occurs_sound r before [] h = let (q, m, _) = run_sound r accept _ h in at_start q m
occurs_sound r before (c ∷ s) h = elim (or-eq-true _ _ h) [
  | inl now ↦ let (q, m, _) = run_sound r accept _ now in at_start q m
  | inr more ↦ further (occurs_sound r (is_word c) s more)
]

-- `MatchString` decides whether the pattern matches somewhere in the text.
pub match_string_iff : (r : Re) (s : Text) → (match_string r s ≡ true) ↔ Occurs r false s
unfolding match_string
match_string_iff r s = (occurs_sound r false s, λ o. occurs_complete o)
