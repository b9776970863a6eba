-- ===== src/Visitors/CatchUp.antt =====
-- A device that asks for changes until no more are announced has them all.
use creative_backend.Base.{
  ℕ, zero, suc, ◌≤◌, ◌<◌, ◌≡◌, refl, ap, ◌∙◌, String, true, false, Option, none, some, List, [],
  ◌++◌, map, arith, Bool-cases, inl, inr, length, all,
}
use creative_backend.Base.Result.{ok, err}
use creative_backend.Sessions.Guards.{newest_assignment}
use creative_backend.Store.{StaffAssignment}
use creative_backend.Visitors.Changes.{
  VisitorChange, VisitorsDb, StaffVisitorChangesQueryDto, Config, page_limit,
  parse_visitor_change_cursor, ChangeItem, ChangesResponse, page_response, find_changes_for_staff,
}
use creative_backend.Visitors.Answers.{parse-to_string, is_named, page_response-Answers}
use creative_backend.Visitors.Latest.{last_of, or_later, last_of-append, effective_rows-last_of}
use creative_backend.Visitors.Pages.{IsIncreasing, pending}

-- A device asks again with the cursor of the answer while more is announced; `none` where a call
-- throws, or the fuel runs out.
unfoldable pub catch_up :
    Config
    → VisitorsDb
    → (fuel : ℕ) → (user_id : String) → StaffVisitorChangesQueryDto
    → Option (List VisitorChange)
catch_up config s zero user_id query = none
catch_up config s (suc fuel) user_id query = elim (find_changes_for_staff config s user_id query) [
  | err e ↦ none
  | ok r ↦
      let sent = map (λ (i : ChangeItem). i.change) r.changes in
      elim r.has_more [
        | false ↦ some sent
        | true ↦
            elim (catch_up config s fuel user_id (record query { after = some r.next_cursor })) [
              | none ↦ none
              | some later ↦ some (sent ++ later)
            ]
      ]
]

abbrev sent_by : ChangesResponse → List VisitorChange
sent_by r = map (λ (i : ChangeItem). i.change) r.changes

module _ (config : Config) (s : VisitorsDb) (fuel : ℕ) (user_id : String)
    (query : StaffVisitorChangesQueryDto) (r : ChangesResponse)
    (called : find_changes_for_staff config s user_id query ≡ ok r) where
  catch_up_last : r.has_more ≡ false → catch_up config s (suc fuel) user_id query ≡ some (sent_by r)
  unfolding catch_up
  catch_up_last e = ground (arith, called, e)

  catch_up_more :
      (later : List VisitorChange)
      → r.has_more ≡ true
      → catch_up config s fuel user_id (record query { after = some r.next_cursor }) ≡ some later
      → catch_up config s (suc fuel) user_id query ≡ some (sent_by r ++ later)
  unfolding catch_up
  catch_up_more later e k = ground (arith, called, e, k)

last_of-glue :
    (id : String) (sent later page rest rows : List VisitorChange)
    → last_of id sent ≡ last_of id page
    → last_of id later ≡ last_of id rest
    → rows ≡ page ++ rest
    → last_of id (sent ++ later) ≡ last_of id rows
last_of-glue id sent later page rest rows a b e = rw (last_of-append id sent later) (
    rw e (
      rw (last_of-append id page rest)
        (ap (λ x. or_later x (last_of id later)) a ∙ ap (λ x. or_later (last_of id page) x) b)))

last_of-alone :
    (id : String) (sent page rest rows : List VisitorChange)
    → last_of id sent ≡ last_of id page
    → rest ≡ []
    → rows ≡ page ++ rest
    → last_of id sent ≡ last_of id rows
last_of-alone id sent page rest rows a none' e =
    a ∙ rw e (rw none' (rw (last_of-append id page []) refl))

module _ (config : Config) (s : VisitorsDb) (assignment : StaffAssignment) (user_id : String) where
  asked :
      (query : StaffVisitorChangesQueryDto) (after : ℕ) (r : ChangesResponse)
      → newest_assignment s.db user_id ≡ some assignment
      → parse_visitor_change_cursor query.after ≡ ok after
      → page_response config s assignment.event_id after (page_limit query.limit) ≡ ok r
      → find_changes_for_staff config s user_id query ≡ ok r
  unfolding find_changes_for_staff
  asked query after r a p e = rw a (rw p e)

  page_limit-pos : (limit : Option ℕ) → 1 ≤ page_limit limit
  unfolding page_limit
  page_limit-pos limit = omega arith

  -- Where the ids of the journal grow, no token's id is blank, the user has an active assignment and
  -- the cursor is valid, a device that asks with the cursor of each answer until no more is announced
  -- gets an end after at most as many answers as rows are pending, and one more; and for each
  -- registration, the last change that it was sent is the last that the journal has behind the cursor
  -- for the event.
  pub catch_up-last_of :
      (fuel : ℕ) (query : StaffVisitorChangesQueryDto) (after : ℕ)
      → IsIncreasing s.changes
      → all is_named s.db.qr_tokens ≡ true
      → newest_assignment s.db user_id ≡ some assignment
      → parse_visitor_change_cursor query.after ≡ ok after
      → length (pending s.changes assignment.event_id after) < fuel
      → (changes : List VisitorChange) × (catch_up config s fuel user_id query ≡ some changes)
        × ((id : String)
            → last_of id changes ≡ last_of id (pending s.changes assignment.event_id after))
  catch_up-last_of zero query after grows named a p enough = absurd (omega arith)
  catch_up-last_of (suc fuel) query after grows named a p enough =
      let (r, made, f) =
        page_response-Answers config s named assignment.event_id after (page_limit query.limit)
          grows (page_limit-pos query.limit) in
      let called = asked query after r a p made in
      let sent = map (λ (i : ChangeItem). i.change) r.changes in
      elim (Bool-cases r.has_more) [
        | inl e ↦
            let (later, kept, same) =
              catch_up-last_of fuel (record query { after = some r.next_cursor }) f.next grows named
                a (rw f.cursor (parse-to_string f.next))
                (rw f.left (omega (arith, f.shorter (f.more e)))) in
            (
              sent ++ later,
              catch_up_more config s fuel user_id query r called later e kept,
              λ id.
                  last_of-glue id sent later f.page f.rest _
                    (ap (last_of id) f.sent ∙ effective_rows-last_of id f.page)
                    (same id ∙ ap (last_of id) f.left) f.split,
            )
        | inr e ↦ (
          sent,
          catch_up_last config s fuel user_id query r called e,
          λ id.
              last_of-alone id sent f.page f.rest _
                (ap (last_of id) f.sent ∙ effective_rows-last_of id f.page) (f.last e) f.split,
        )
      ]
