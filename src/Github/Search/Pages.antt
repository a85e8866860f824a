-- ===== src/Github/Search/Pages.antt =====
-- The pages and the queries of a mapping keep its limits and counts.
use signal_observatory.Prelude.{
  ℕ, zero, suc, ◌+◌, ◌-◌, ◌≤◌, refl, not, ◌&&◌, Option, none, some, is_some, List, [], ◌∷◌, leb,
  ◌==◌, max, if◌then◌else◌, arith, Bool-cases, inl, inr, String, is_empty,
}
use signal_observatory.Github.State.{Settings, RepositoryData, Response, Attempt, parse_error}
use signal_observatory.Github.Client.{
  GetEnd, answered, raises, unanswered, get_search, search_resource,
}
use signal_observatory.Github.Client.Bounds.{get-IsRequest}
use signal_observatory.Github.Search.{
  Mapping, Progress, collect_repository, collect_page, PageEnd, next_page, query_done, page_fails,
  page_cut_off, after_search, search_page, query_pages, query_loop,
}
use signal_observatory.Github.Search.Counts.{
  IsSearch, same-IsSearch, IsSearch-trans, collect_repository-IsSearch,
}

collect_page-IsSearch :
    (s : Settings) (results limit : ℕ) (mapping : Mapping) (query : String) (r : Response)
    (room : ℕ) (repositories : List RepositoryData) (at' : Progress)
    → room + at'.received ≤ max at'.received results
    → IsSearch results limit at' (collect_page s mapping query r room repositories at')
unfolding collect_page collect_repository
collect_page-IsSearch s results limit mapping query r zero repositories at' h =
    same-IsSearch results limit at'
collect_page-IsSearch s results limit mapping query r (suc room) [] at' h =
    same-IsSearch results limit at'
collect_page-IsSearch s results limit mapping query r (suc room) (data' ∷ rest) at' h =
    let next = collect_repository s mapping query r data' at' in
    IsSearch-trans results limit at' next (collect_page s mapping query r room rest next)
      (collect_repository-IsSearch s results limit mapping query r data' at' (omega (arith, h)))
      (collect_page-IsSearch s results limit mapping query r room rest next (omega (arith, h)))

after_search-IsSearch :
    (s : Settings) (results limit : ℕ) (mapping : Mapping) (query : String) (got : GetEnd)
    (at' : Progress)
    → IsSearch results limit at' (after_search s results mapping query got at').1
unfolding after_search
after_search-IsSearch s results limit mapping query unanswered at' = same-IsSearch results limit at'
after_search-IsSearch s results limit mapping query (raises e) at' = same-IsSearch results limit at'
after_search-IsSearch s results limit mapping query (answered r) at' =
    elim (Bool-cases (r.status_code == 200)) [
      | inr e ↦ rw (e, after_search) (same-IsSearch results limit at')
      | inl e ↦ rw (e, after_search) (parsed r.search)
    ]
  where
    parsed :
        (found : Option (List RepositoryData))
        → IsSearch results limit at'
            (elim found as (λ _. PageEnd × Progress) [
              | none ↦ (page_fails parse_error, at')
              | some repositories ↦ (
                if is_some r.next && not (is_empty repositories) then next_page else query_done,
                collect_page s mapping query r (results - at'.received) repositories at',
              )
            ]).1
    parsed none = same-IsSearch results limit at'
    parsed (some repositories) =
        collect_page-IsSearch s results limit mapping query r (results - at'.received) repositories
          at' (omega arith)

request-IsSearch :
    (s : Settings) (results limit : ℕ) (attempts : List Attempt) (at' : Progress)
    → IsSearch results limit at' (record at' { run = (get_search s limit at'.run attempts).1 })
request-IsSearch s results limit attempts at' =
    let h = get-IsRequest s limit search_resource s.min_search_remaining at'.run attempts in
    let same = same-IsSearch results limit at' in
    record {
      requests = h.within;
      calls = h.calls;
      errors = h.items.errors;
      executed = h.items.executed;
      received = omega arith;
      total = omega (arith, h.items.received);
      new_or_existing = omega (arith, h.items.new, h.items.existing, h.items.received);
      rows = omega (arith, h.items.new);
      matches = omega (arith, h.items.added);
      known = λ k. rw h.items.ids k;
      snapshots = refl;
      discovery = refl;
    }

search_page-IsSearch :
    (s : Settings) (results limit : ℕ) (mapping : Mapping) (query : String)
    (attempts : List Attempt) (at' : Progress)
    → IsSearch results limit at' (search_page s results limit mapping query attempts at').1
unfolding search_page
search_page-IsSearch s results limit mapping query attempts at' =
    let (got, run) = get_search s limit at'.run attempts in
    let next : Progress = record at' { run = run } in
    IsSearch-trans results limit at' next (after_search s results mapping query got next).1
      (request-IsSearch s results limit attempts at')
      (after_search-IsSearch s results limit mapping query got next)

abbrev progress_of : PageEnd × Progress × List (List Attempt) → Progress
progress_of (end, next, rest) = next

query_pages-IsSearch :
    (s : Settings) (results limit : ℕ) (mapping : Mapping) (query : String)
    (trace : List (List Attempt)) (at' : Progress)
    → IsSearch results limit at' (progress_of (query_pages s results limit mapping query trace at'))
unfolding query_pages
query_pages-IsSearch s results limit mapping query [] at' = same-IsSearch results limit at'
query_pages-IsSearch s results limit mapping query (attempts ∷ trace) at' =
    elim (Bool-cases (leb results at'.received)) [
      | inl full ↦ rw (full, query_pages) (same-IsSearch results limit at')
      | inr room ↦
          rw (room, query_pages)
            (turned (search_page s results limit mapping query attempts at').0
              (search_page s results limit mapping query attempts at').1
              (search_page-IsSearch s results limit mapping query attempts at')
              (λ next. query_pages-IsSearch s results limit mapping query trace next))
    ]
  where
    turned :
        (end : PageEnd) (next : Progress)
        → IsSearch results limit at' next
        → ((next : Progress)
            → IsSearch results limit next
                (progress_of (query_pages s results limit mapping query trace next)))
        → IsSearch results limit at' (
            progress_of (elim end as (λ _. PageEnd × Progress × List (List Attempt)) [
              | next_page ↦ query_pages s results limit mapping query trace next
              | query_done ↦ (query_done, next, trace)
              | page_fails e ↦ (page_fails e, next, trace)
              | page_cut_off ↦ (page_cut_off, next, trace)
            ]))
    turned next_page next h ih =
        IsSearch-trans results limit at' next
          (progress_of (query_pages s results limit mapping query trace next)) h (ih next)
    turned query_done next h ih = h
    turned (page_fails e) next h ih = h
    turned page_cut_off next h ih = h

-- However the search for a mapping ends: the limit of requests holds, the mapping's results are at most
-- `results`, and the run's counts grow as the tables do.
pub query_loop-IsSearch :
    (s : Settings) (results limit : ℕ) (mapping : Mapping) (queries : List String)
    (trace : List (List Attempt)) (at' : Progress)
    → IsSearch results limit at' (query_loop s results limit mapping queries trace at').1
unfolding query_loop
query_loop-IsSearch s results limit mapping [] trace at' = same-IsSearch results limit at'
query_loop-IsSearch s results limit mapping (query ∷ queries) trace at' =
    elim (Bool-cases (leb results at'.received)) [
      | inl full ↦ rw (full, query_loop) (same-IsSearch results limit at')
      | inr room ↦
          rw (room, query_loop)
            (turned (query_pages s results limit mapping query trace at')
              (query_pages-IsSearch s results limit mapping query trace at')
              (λ rest next. query_loop-IsSearch s results limit mapping queries rest next))
    ]
  where
    turned :
        (out : PageEnd × Progress × List (List Attempt))
        → IsSearch results limit at' (progress_of out)
        → ((rest : List (List Attempt)) (next : Progress)
            → IsSearch results limit next (query_loop s results limit mapping queries rest next).1)
        → IsSearch results limit at'
            (let (end, next, rest) = out in
              elim end as (λ _. PageEnd × Progress) [
                | query_done ↦ query_loop s results limit mapping queries rest next
                | next_page ↦ (next_page, next)
                | page_fails e ↦ (page_fails e, next)
                | page_cut_off ↦ (page_cut_off, next)
              ]).1
    turned (query_done, next, rest) h ih =
        IsSearch-trans results limit at' next
          (query_loop s results limit mapping queries rest next).1 h (ih rest next)
    turned (next_page, next, rest) h ih = h
    turned (page_fails e, next, rest) h ih = h
    turned (page_cut_off, next, rest) h ih = h
