-- ===== src/Activity/History.antt =====
-- The journal holds the newest events of its history, and never more than its capacity.
use claude_distant.Activity.{
  ActivityEvent, ActivityLog, append, append_all, events_of, evict, new_activity_log,
}
use claude_distant.Common.{
  Bool-cases, List, Option, [], ap, append-nil, append_assoc, arith, drop, inl, inr, length,
  length-append, length-drop, ltb, ltb→ge, ltb→lt, max, refl, some, suc, sym, zero, ℕ, ◌++◌, ◌-◌,
  ◌<◌, ◌∙◌, ◌∷◌, ◌≡◌, ◌≤◌,
}
use claude_distant.Common.Int.{is_positive, negsuc, pos, pos_part, ℤ}

-- The last `n` elements of a list.
abbrev pub take_last {ℓ} : {A : Type ℓ} → ℕ → List A → List A
take_last n xs = drop (length xs - n) xs

module _ {ℓ} {A : Type ℓ} where
  pub drop_zero : (xs : List A) (n : ℕ) → n ≡ 0 → drop n xs ≡ xs
  drop_zero xs zero e = refl
  drop_zero xs (suc n) e = absurd (omega arith)

  drop-nil : (n : ℕ) → drop {A = A} n [] ≡ []
  drop-nil zero = refl
  drop-nil (suc n) = refl

  drop-append : (n : ℕ) (xs ys : List A) → n ≤ length xs → drop n (xs ++ ys) ≡ drop n xs ++ ys
  drop-append zero xs ys h = refl
  drop-append (suc n) [] ys h = absurd (omega arith)
  drop-append (suc n) (x ∷ xs) ys h = drop-append n xs ys (omega arith)

  drop-drop : (n : ℕ) (xs : List A) → drop 1 (drop n xs) ≡ drop (suc n) xs
  drop-drop zero xs = refl
  drop-drop (suc n) [] = refl
  drop-drop (suc n) (x ∷ xs) = drop-drop n xs

  pub take_last_concat :
      (c : ℕ) (xs : List A) (e : A)
      → 0 < c
      → take_last c (take_last c xs ++ e ∷ []) ≡ take_last c (xs ++ e ∷ [])
  take_last_concat c xs e h = elim (Bool-cases (ltb (length xs) c)) [
    | inl room ↦
        let none_over : length xs - c ≡ 0 = omega (arith, ltb→lt (length xs) c room) in
        ap (λ (ys : List A). take_last c (ys ++ e ∷ [])) (drop_zero xs _ none_over)
    | inr full ↦
        let d = length xs - c in
        let le : d ≤ length xs = omega arith in
        let one_over : length (drop d xs ++ e ∷ []) - c ≡ 1 = omega (
          arith,
          ltb→ge (length xs) c full,
          length-append (drop d xs) (e ∷ []),
          length-drop d xs,
        ) in
        let longer : suc d ≡ length (xs ++ e ∷ []) - c =
          omega (arith, ltb→ge (length xs) c full, length-append xs (e ∷ [])) in
        ap (λ n. drop n (drop d xs ++ e ∷ [])) one_over
        ∙ ap (drop 1) (sym (drop-append d xs (e ∷ []) le))
        ∙ drop-drop d (xs ++ e ∷ [])
        ∙ ap (λ n. drop n (xs ++ e ∷ [])) longer
  ]

pub evict-eq-take_last :
    (capacity : ℕ) (events : List ActivityEvent) → evict capacity events ≡ take_last capacity events
unfolding evict
evict-eq-take_last capacity events = elim (Bool-cases (ltb 0 (length events - capacity))) [
  | inl over ↦ rw over
  | inr fits ↦ rw fits (sym (drop_zero events _ (omega (arith, ltb→ge 0 _ fits))))
]

append-take_last :
    (l : ActivityLog) (history : List ActivityEvent) (e : ActivityEvent)
    → 0 < l.capacity
    → l.events ≡ take_last l.capacity history
    → events_of (append (some l) e).0 ≡ take_last l.capacity (history ++ e ∷ [])
unfolding append events_of
append-take_last l history e h old =
    ap (λ (xs : List ActivityEvent). evict l.capacity (xs ++ e ∷ [])) old
    ∙ evict-eq-take_last l.capacity _
    ∙ take_last_concat l.capacity history e h

-- What the journal keeps and what it hands to its subscribers, after a history of events.
pub record Journals (l : ActivityLog) (history : List ActivityEvent) : Type 0 where
  pub room : 0 < l.capacity
  pub newest : l.events ≡ take_last l.capacity history

append-Journals :
    (l : ActivityLog) (history : List ActivityEvent) (e : ActivityEvent)
    → Journals l history
    → (l' : ActivityLog) × ((append (some l) e).0 ≡ some l')
      × Journals l' (history ++ e ∷ [])
      × (l'.capacity ≡ l.capacity)
      × (l'.subscribers ≡ l.subscribers)
append-Journals l history e j = (
  record l { events = evict l.capacity (l.events ++ e ∷ []) },
  (unfold append in refl),
  record {
    room = j.room;
    newest = unfold append events_of in append-take_last l history e j.room j.newest;
  },
  refl,
  refl,
)

append_all-Journals :
    (l : ActivityLog) (history es : List ActivityEvent)
    → Journals l history
    → (l' : ActivityLog) × ((append_all (some l) es).0 ≡ some l')
      × Journals l' (history ++ es)
      × (l'.capacity ≡ l.capacity)
unfolding append_all
append_all-Journals l history [] j = (l, refl, rw append-nil j, refl)
append_all-Journals l history (e ∷ es) j =
    let (l₁, made, j₁, cap₁, _) = append-Journals l history e j in
    let (l₂, rest, j₂, cap₂) = append_all-Journals l₁ (history ++ e ∷ []) es j₁ in
    (
      l₂,
      ap (λ (x : Option ActivityLog). (append_all x es).0) made ∙ rest,
      rw append_assoc at j₂,
      cap₂ ∙ cap₁,
    )

new_activity_log-capacity :
    (capacity : ℤ) → (new_activity_log capacity).capacity ≡ max 1 (pos_part capacity)
unfolding new_activity_log is_positive
new_activity_log-capacity (pos n) = ground arith
new_activity_log-capacity (negsuc n) = refl

new-Journals : (capacity : ℤ) → Journals (new_activity_log capacity) []
new-Journals capacity = record {
  room = omega (arith, new_activity_log-capacity capacity);
  newest = unfold new_activity_log in sym (drop-nil (0 - (new_activity_log capacity).capacity));
}

-- After any history of `Append` calls the journal holds exactly the newest events of it, in order,
-- as many as its capacity allows; a capacity that is not positive counts as one.
pub append_all_newest :
    (capacity : ℤ) (es : List ActivityEvent)
    → events_of (append_all (some (new_activity_log capacity)) es).0
      ≡ take_last (max 1 (pos_part capacity)) es
append_all_newest capacity es =
    let (l, made, j, cap) =
      append_all-Journals (new_activity_log capacity) [] es (new-Journals capacity) in
    ap events_of made
    ∙ unfold events_of in
      j.newest ∙ ap (λ c. take_last c es) (cap ∙ new_activity_log-capacity capacity)

-- So the journal never holds more events than its capacity allows.
pub length-append_all :
    (capacity : ℤ) (es : List ActivityEvent)
    → length (events_of (append_all (some (new_activity_log capacity)) es).0)
      ≤ max 1 (pos_part capacity)
length-append_all capacity es =
    rw append_all_newest (omega (arith, length-drop (length es - max 1 (pos_part capacity)) es))
