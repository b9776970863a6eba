-- ===== src/Visitors/Answers.antt =====
-- What one answer of `findChangesForStaff` says, for the rows that are pending behind its cursor.
use creative_backend.Base.{
  ℕ, suc, ◌≤◌, ◌<◌, ◌≡◌, ◌≢◌, refl, ◌∙◌, String, Bool, true, false, not, ◌||◌, none, some, List, [],
  ◌∷◌, ◌++◌, map, arith, ◌==◌, ltb, if◌then◌else◌, Bool-cases, inl, inr, length, select, all, find,
  Option-cases,
}
use creative_backend.Base.Decimal.{
  to_string, read_from-to_string, to_string-digits, to_string-ne-empty, digits-not_space,
}
use creative_backend.Base.Text.{trim, is_empty, trim_id, trim-trim}
use creative_backend.Base.Result.{ok, Result-cases}
use creative_backend.Qr.{take, create_compact_qr_token}
use creative_backend.Store.{Db, Registration, QrToken}
use creative_backend.Visitors.Changes.{
  VisitorChange, VisitorsDb, Config, has_more_rows, page_rows, effective_rows, is_upsert, max_id,
  last_id, parse_visitor_change_cursor, create_compact_token_for_offline, format_offline_visitor,
  OfflineVisitor, ChangeItem, registrations_of, change_item, change_items, ChangesResponse,
  page_response,
}
use creative_backend.Visitors.Pages.{
  IsIncreasing, pending, rows_after-pending, pending-next, max_id-le, page_rest, page_rows-IsPage,
  page_rest-shorter,
}

-- The cursor of an answer is read as the number that it stands for.
pub parse-to_string : (n : ℕ) → parse_visitor_change_cursor (some (to_string n)) ≡ ok n
unfolding parse_visitor_change_cursor
parse-to_string n =
    let same : trim (to_string n) ≡ to_string n =
      trim_id (to_string n) (digits-not_space (to_string n) (to_string-digits n)) in
    rw same (
      rw (to_string-ne-empty n)
        (rw (to_string-ne-empty n) (rw (to_string-digits n) (rw read_from-to_string refl))))

all-find :
    (p q : QrToken → Bool) (xs : List QrToken) (x : QrToken)
    → all p xs ≡ true
    → find q xs ≡ some x
    → p x ≡ true
all-find p q [] x h e = absurd (cc)
all-find p q (y ∷ ys) x h e = ground (arith, h, e, all-find p q ys x)

-- the token has an id that is not blank
abbrev pub is_named : QrToken → Bool
is_named t = not (is_empty (trim t.token_id))

module _ (config : Config) (db : Db) (named : all is_named db.qr_tokens ≡ true) where
  compact-total :
      (token_id : String)
      → not (is_empty (trim token_id)) ≡ true
      → (code : String) × (create_compact_token_for_offline config token_id ≡ ok code)
  unfolding create_compact_token_for_offline
  compact-total token_id h =
      let filled : is_empty (trim token_id) ≡ false = ground (arith, h) in
      elim (Result-cases
        (create_compact_qr_token config.node (trim token_id) config.qr_signing_secret)) [
          | inl (e, k) ↦
              absurd
                (unfold create_compact_qr_token in ground (arith, trim-trim token_id, filled, k))
          | inr (code, k) ↦ (code, ground (arith, filled, k))
        ]

  visitor-total :
      (r : Registration) → (v : OfflineVisitor) × (format_offline_visitor config db r ≡ ok v)
  unfolding format_offline_visitor
  visitor-total r = elim (Option-cases (find (λ t. t.registration_id == r.id) db.qr_tokens)) [
    | inl e ↦ (
      record { registration = r; qr_token = none; compact_qr_token = none },
      rw (e, format_offline_visitor) refl,
    )
    | inr (t, e) ↦
        let (code, k) =
          compact-total t.token_id
            (all-find is_named (λ t. t.registration_id == r.id) db.qr_tokens t named e) in
        (
          record { registration = r; qr_token = some t; compact_qr_token = some code },
          rw (e, format_offline_visitor) (rw k refl),
        )
  ]

  item-total :
      (registrations : List Registration) (c : VisitorChange)
      → (i : ChangeItem) × (change_item config db registrations c ≡ ok i) × (i.change ≡ c)
  unfolding change_item
  item-total registrations c =
      elim (Option-cases
        (if is_upsert c then find (λ r. r.id == c.registration_id) registrations else none)) [
          | inl e ↦ (record { change = c; visitor = none }, rw (e, change_item) refl, refl)
          | inr (r, e) ↦
              let (v, k) = visitor-total r in
              (record { change = c; visitor = some v }, rw (e, change_item) (rw k refl), refl)
        ]

  items-total :
      (registrations : List Registration) (rows : List VisitorChange)
      → (items : List ChangeItem) × (change_items config db registrations rows ≡ ok items)
        × (map (λ (i : ChangeItem). i.change) items ≡ rows)
  unfolding change_items
  items-total registrations [] = ([], refl, refl)
  items-total registrations (c ∷ cs) =
      let (i, made, same) = item-total registrations c in
      let (is, made', same') = items-total registrations cs in
      (i ∷ is, rw made (rw made' refl), rw (same, same') refl)

module _ (config : Config) (s : VisitorsDb) (named : all is_named s.db.qr_tokens ≡ true) where
  -- What one answer says, for the rows that are pending behind its cursor.
  pub record Answers (event_id : String) (after : ℕ) (r : ChangesResponse) : Type 0 where
    pub page : List VisitorChange
    pub rest : List VisitorChange
    pub next : ℕ
    pub split : pending s.changes event_id after ≡ page ++ rest
    pub left : pending s.changes event_id next ≡ rest
    pub cursor : r.next_cursor ≡ to_string next
    pub last : r.has_more ≡ false → rest ≡ []
    pub more : r.has_more ≡ true → rest ≢ []
    pub shorter : rest ≢ [] → length rest < length (pending s.changes event_id after)
    pub sent : map (λ (i : ChangeItem). i.change) r.changes ≡ effective_rows page

  pub page_response-Answers :
      (event_id : String) (after limit : ℕ)
      → IsIncreasing s.changes
      → 1 ≤ limit
      → (r : ChangesResponse) × (page_response config s event_id after limit ≡ ok r)
        × Answers event_id after r
  unfolding page_response
  page_response-Answers event_id after limit grows some_rows =
      let pend = pending s.changes event_id after in
      let page = page_rows limit (take (suc limit) pend) in
      let facts = page_rows-IsPage limit pend in
      let next = last_id after page in
      let latest = max_id (select (λ c. c.event_id == event_id) s.changes) in
      let left =
        pending-next s.changes event_id after page (page_rest limit pend) grows facts.split in
      let (items, made, sent) =
        items-total config s.db named (registrations_of s.db event_id (effective_rows page))
          (effective_rows page) in
      (
        record {
          event_id = event_id;
          after_cursor = to_string after;
          next_cursor = to_string next;
          latest_cursor = to_string latest;
          has_more = has_more_rows limit (take (suc limit) pend) || ltb next latest;
          changes = items;
        },
        rw (rows_after-pending s.changes event_id after grows) (rw made refl),
        record {
          page = page;
          rest = page_rest limit pend;
          next = next;
          split = facts.split;
          left = left;
          cursor = refl;
          last = λ e. facts.last (ground (arith, e));
          more = λ e k. elim (Bool-cases (has_more_rows limit (take (suc limit) pend))) [
            | inl m ↦ facts.more m k
            | inr m ↦ absurd (ground (arith, e, m, max_id-le s.changes event_id next (left ∙ k)))
          ];
          shorter = page_rest-shorter limit pend some_rows;
          sent = sent;
        },
      )
