-- ===== src/Visitors/Pages.antt =====
-- One page of the journal: the rows behind a cursor are those of the page and those behind the
-- next cursor. The ids of the journal are drawn in the order of its rows.
use creative_backend.Base.{
  ℕ, zero, suc, ◌≤◌, ◌<◌, ◌≡◌, ◌≢◌, refl, ap, ◌∙◌, String, Bool, true, false, ◌&&◌, List, [], ◌∷◌,
  ◌++◌, arith, ◌==◌, ltb, if◌then◌else◌, Bool-cases, inl, inr, length, select,
}
use creative_backend.Qr.{take}
use creative_backend.Visitors.Changes.{
  VisitorChange, insert_by_id, sort_by_id, rows_after, has_more_rows, page_rows, last_id, max_id,
}

abbrev pub IsAbove : ℕ → List VisitorChange → Type 0
IsAbove n [] = Unit {0}
IsAbove n (c ∷ cs) = (n < c.id) × IsAbove n cs

-- The ids grow along the list.
abbrev pub IsIncreasing : List VisitorChange → Type 0
IsIncreasing [] = Unit {0}
IsIncreasing (c ∷ cs) = IsAbove c.id cs × IsIncreasing cs

select-IsAbove :
    (p : VisitorChange → Bool) (n : ℕ) (xs : List VisitorChange)
    → IsAbove n xs
    → IsAbove n (select p xs)
select-IsAbove p n [] h = tt
select-IsAbove p n (x ∷ xs) h = elim (Bool-cases (p x)) [
  | inl e ↦ rw e (h.0, select-IsAbove p n xs h.1)
  | inr e ↦ rw e (select-IsAbove p n xs h.1)
]

select-IsIncreasing :
    (p : VisitorChange → Bool) (xs : List VisitorChange)
    → IsIncreasing xs
    → IsIncreasing (select p xs)
select-IsIncreasing p [] h = tt
select-IsIncreasing p (x ∷ xs) h = elim (Bool-cases (p x)) [
  | inl e ↦ rw e (select-IsAbove p x.id xs h.0, select-IsIncreasing p xs h.1)
  | inr e ↦ rw e (select-IsIncreasing p xs h.1)
]

insert-above :
    (c : VisitorChange) (xs : List VisitorChange) → IsAbove c.id xs → insert_by_id c xs ≡ c ∷ xs
unfolding insert_by_id
insert-above c [] h = refl
insert-above c (x ∷ xs) h = ground (arith, h.0)

sort-increasing : (xs : List VisitorChange) → IsIncreasing xs → sort_by_id xs ≡ xs
unfolding sort_by_id
sort-increasing [] h = refl
sort-increasing (x ∷ xs) h = rw (sort-increasing xs h.1) (insert-above x xs h.0)

-- the rows of the event behind a cursor, in the order of the journal
abbrev pub pending : List VisitorChange → String → ℕ → List VisitorChange
pending changes event_id after = select (λ c. (c.event_id == event_id) && ltb after c.id) changes

pub rows_after-pending :
    (changes : List VisitorChange) (event_id : String) (after : ℕ)
    → IsIncreasing changes
    → rows_after changes event_id after ≡ pending changes event_id after
unfolding rows_after
rows_after-pending changes event_id after h = sort-increasing _ (select-IsIncreasing _ changes h)

pending_later :
    (changes : List VisitorChange) (event_id : String) (after next : ℕ)
    → after ≤ next
    → pending changes event_id next ≡ select (λ c. ltb next c.id) (pending changes event_id after)
pending_later [] event_id after next h = refl
pending_later (c ∷ cs) event_id after next h =
    ground (arith, h, pending_later cs event_id after next h)

select_above : (n : ℕ) (xs : List VisitorChange) → IsAbove n xs → select (λ c. ltb n c.id) xs ≡ xs
select_above n [] h = refl
select_above n (x ∷ xs) h = ground (arith, h.0, select_above n xs h.1)

last_id-ge :
    (p : VisitorChange) (page rest : List VisitorChange)
    → IsIncreasing (p ∷ page ++ rest)
    → p.id ≤ last_id p.id page
last_id-ge p [] rest h = omega arith
last_id-ge p (q ∷ page) rest h = omega (arith, h.0.0, last_id-ge q page rest h.1)

select_behind :
    (p : VisitorChange) (page rest : List VisitorChange)
    → IsIncreasing (p ∷ page ++ rest)
    → select (λ c. ltb (last_id p.id page) c.id) (p ∷ page ++ rest) ≡ rest
select_behind p [] rest h = ground (arith, select_above p.id rest h.0)
select_behind p (q ∷ page) rest h =
    ground (arith, h.0.0, last_id-ge q page rest h.1, select_behind q page rest h.1)

IsAbove-pending :
    (changes : List VisitorChange) (event_id : String) (after : ℕ)
    → IsAbove after (pending changes event_id after)
IsAbove-pending [] event_id after = tt
IsAbove-pending (c ∷ cs) event_id after =
    elim (Bool-cases ((c.event_id == event_id) && ltb after c.id)) [
      | inl e ↦ rw e (ground (arith, e), IsAbove-pending cs event_id after)
      | inr e ↦ rw e (IsAbove-pending cs event_id after)
    ]

-- What a page leaves behind the next cursor.
pub pending-next :
    (changes : List VisitorChange) (event_id : String) (after : ℕ) (page rest : List VisitorChange)
    → IsIncreasing changes
    → pending changes event_id after ≡ page ++ rest
    → pending changes event_id (last_id after page) ≡ rest
pending-next changes event_id after [] rest h e = e
pending-next changes event_id after (p ∷ page) rest h e =
    let grows : IsIncreasing (p ∷ page ++ rest) =
      rw e at (select-IsIncreasing (λ c. (c.event_id == event_id) && ltb after c.id) changes h) in
    let above : IsAbove after (p ∷ page ++ rest) =
      rw e at (IsAbove-pending changes event_id after) in
    let behind : after ≤ last_id p.id page = omega (arith, above.0, last_id-ge p page rest grows) in
    pending_later changes event_id after (last_id p.id page) behind
    ∙ (ap (λ x. select (λ c. ltb (last_id p.id page) c.id) x) e ∙ select_behind p page rest grows)

pub max_id-le :
    (changes : List VisitorChange) (event_id : String) (n : ℕ)
    → pending changes event_id n ≡ []
    → max_id (select (λ c. c.event_id == event_id) changes) ≤ n
unfolding max_id
max_id-le [] event_id n h = omega arith
max_id-le (c ∷ cs) event_id n h = ground (arith, max_id-le cs event_id n)

-- How a page splits the rows.
pub record IsPage (limit : ℕ) (rows page rest : List VisitorChange) : Type 0 where
  pub split : rows ≡ page ++ rest
  pub last : has_more_rows limit (take (suc limit) rows) ≡ false → rest ≡ []
  pub more : has_more_rows limit (take (suc limit) rows) ≡ true → rest ≢ []

drop : ℕ → List VisitorChange → List VisitorChange
drop zero xs = xs
drop (suc n) [] = []
drop (suc n) (x ∷ xs) = drop n xs

drop_nil : (n : ℕ) → drop n [] ≡ []
unfolding drop
drop_nil zero = refl
drop_nil (suc n) = refl

take-drop : (n : ℕ) (xs : List VisitorChange) → xs ≡ take n xs ++ drop n xs
unfolding drop
take-drop zero xs = refl
take-drop (suc n) [] = refl
take-drop (suc n) (x ∷ xs) = ap (λ (r : List VisitorChange). x ∷ r) (take-drop n xs)

take-take : (n : ℕ) (xs : List VisitorChange) → take n (take (suc n) xs) ≡ take n xs
take-take zero xs = refl
take-take (suc n) [] = refl
take-take (suc n) (x ∷ xs) = ap (λ (r : List VisitorChange). x ∷ r) (take-take n xs)

few-take :
    (n : ℕ) (xs : List VisitorChange)
    → ltb n (length (take (suc n) xs)) ≡ false
    → take (suc n) xs ≡ xs
few-take zero [] h = refl
few-take zero (x ∷ xs) h = absurd (ground (arith, h))
few-take (suc n) [] h = refl
few-take (suc n) (x ∷ xs) h =
    ap (λ (r : List VisitorChange). x ∷ r) (few-take n xs (ground (arith, h)))

many-drop :
    (n : ℕ) (xs : List VisitorChange) → ltb n (length (take (suc n) xs)) ≡ true → drop n xs ≢ []
unfolding drop
many-drop zero [] h = absurd (ground (arith, h))
many-drop zero (x ∷ xs) h = λ e. cc
many-drop (suc n) [] h = absurd (ground (arith, h))
many-drop (suc n) (x ∷ xs) h = many-drop n xs (ground (arith, h))

pub page_rest : ℕ → List VisitorChange → List VisitorChange
page_rest limit rows = if has_more_rows limit (take (suc limit) rows) then drop limit rows else []

append_nil : (xs : List VisitorChange) → xs ≡ xs ++ []
append_nil [] = refl
append_nil (x ∷ xs) = ap (λ (r : List VisitorChange). x ∷ r) (append_nil xs)

pub page_rows-IsPage :
    (limit : ℕ) (rows : List VisitorChange)
    → IsPage limit rows (page_rows limit (take (suc limit) rows)) (page_rest limit rows)
unfolding page_rows page_rest has_more_rows
page_rows-IsPage limit rows = elim (Bool-cases (ltb limit (length (take (suc limit) rows)))) [
  | inl e ↦ record {
    split = rw e (rw take-take (take-drop limit rows));
    last = λ k. absurd (cc);
    more = λ k. rw e (many-drop limit rows e);
  }
  | inr e ↦ record {
    split = rw e (rw (few-take limit rows e) (append_nil rows));
    last = λ k. rw e refl;
    more = λ k. absurd (cc);
  }
]

length-drop_le : (n : ℕ) (xs : List VisitorChange) → length (drop n xs) ≤ length xs
unfolding drop
length-drop_le zero xs = omega arith
length-drop_le (suc n) [] = omega arith
length-drop_le (suc n) (x ∷ xs) = omega (arith, length-drop_le n xs)

-- Fewer rows are left behind a page, if any are.
pub page_rest-shorter :
    (limit : ℕ) (rows : List VisitorChange)
    → 1 ≤ limit
    → page_rest limit rows ≢ []
    → length (page_rest limit rows) < length rows
unfolding page_rest
page_rest-shorter limit [] h k = elim (Bool-cases (has_more_rows limit (take (suc limit) []))) [
  | inl e ↦ absurd (k (rw e (drop_nil limit)))
  | inr e ↦ absurd (k (rw e refl))
]
page_rest-shorter zero (x ∷ xs) h k = absurd (omega arith)
page_rest-shorter (suc limit) (x ∷ xs) h k =
    elim (Bool-cases (has_more_rows (suc limit) (take (suc (suc limit)) (x ∷ xs)))) [
      | inl e ↦ rw e (unfold drop in omega (arith, length-drop_le limit xs))
      | inr e ↦ absurd (k (rw e refl))
    ]
