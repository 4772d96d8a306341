-- ===== src/Api/Reads/Paging.antt =====
-- The pages of the list of events.
use localcloud.Base.{
  contains_complete, length, ℤ, pos, pos_part, eqb_ℤ, Bytes, codes, contains, both_branches, ◌≡◌,
  refl, sym, ap, ◌∙◌, subst, ◌⊎◌, inl, inr, true, List, [], ◌∷◌,
}
use localcloud.Timeline.{TimelineEvent}
use localcloud.Storage.{Db, list_by_timestamp}
use localcloud.Api.Reply.{Payload, json, status_ok_code}
use localcloud.Api.Reads.{
  cursor_of, int_query, last_of, Numbers, int64_query, unix_milli_of, next_cursor,
  handle_list_events,
}

-- A cursor that a page gives has a colon in it.
next_cursor-colon :
    (c : Numbers) (limit : ℤ) (es : List TimelineEvent)
    → (next_cursor c limit es ≡ []) ⊎ (contains (next_cursor c limit es) (codes ":") ≡ true)
unfolding next_cursor
next_cursor-colon c limit [] = inl refl
next_cursor-colon c limit (e ∷ es) =
    let last = last_of e es in
    both_branches (λ x. (x ≡ []) ⊎ (contains x (codes ":") ≡ true))
      (eqb_ℤ (pos (length (e ∷ es))) limit) _ _
      (inr (
        contains_complete (c.format (unix_milli_of last.timestamp)) (codes ":") (codes last.id) _
          refl))
      (inl refl)

int64_query-colon :
    (c : Numbers) (v : Bytes) (def : ℤ) → contains v (codes ":") ≡ true → int64_query c v def ≡ def
unfolding int64_query
int64_query-colon c [] def h = refl
int64_query-colon c (b ∷ v) def h = rw (c.no_colon (b ∷ v) h) refl

-- Where the queries run, the cursor that a page gives for the next one leads back to the first page:
-- it is empty, or it carries a colon, so that it does not parse and the default is taken.
pub handle_list_events-next :
    (c : Numbers) (limit cursor next : Bytes) (es : List TimelineEvent) (db : Db)
    → handle_list_events c true limit cursor db ≡ json status_ok_code (Payload.events es next)
    → handle_list_events c true limit next db ≡ handle_list_events c true limit [] db
unfolding handle_list_events
handle_list_events-next c limit cursor next es db h =
    let n = int_query c limit (pos 100) in
    let page = list_by_timestamp (pos_part n) (cursor_of (int64_query c cursor (pos 0))) db in
    let given : next_cursor c n page ≡ next = cc in
    let first : int64_query c next (pos 0) ≡ int64_query c [] (pos 0) =
      elim (next_cursor-colon c n page) [
        | inl e ↦ ap (λ v. int64_query c v (pos 0)) (sym given ∙ e)
        | inr e ↦
            int64_query-colon c next (pos 0) (subst (λ v. contains v (codes ":") ≡ true) given e)
      ] in
    ap
      (λ k.
        let events = list_by_timestamp (pos_part n) (cursor_of k) db in
        json status_ok_code (Payload.events events (next_cursor c n events)))
      first
