-- ===== src/Orchestrator/Queue/Laws.antt =====
-- What a refresh of the queue shows.
use risoluto.Prelude.{
  ℕ, zero, suc, ◌≤◌, false, ◌||◌, ◌≡◌, refl, ap, ◌∙◌, List, [], ◌∷◌, Dict, get, put, get-put, has,
  All, Text, text_eq, nat_eq, arith, take, length, length-take, includes,
}
use risoluto.Core.Types.{Issue, ServiceConfig}
use risoluto.Orchestrator.Runtime.{RecentEvent, RuntimeIssueView}
use risoluto.Orchestrator.Dispatch.{Host, insert_issue, sort_issues_for_dispatch}
use risoluto.Orchestrator.State.{
  LifecycleState, push_event, push_recent_event_in_state, set_queued_views_in_state, issue_view,
}
use risoluto.Orchestrator.Launch.{can_dispatch_issue}
use risoluto.Orchestrator.Launch.Slots.{can_dispatch_issue_lem}
use risoluto.Orchestrator.Launch.Bounds.{is_dispatchable-IsDispatched}
use risoluto.Orchestrator.Worker.Events.{IsSameWork}
use risoluto.Orchestrator.Queue.{
  keep_dispatchable, queued_view, queued_views, put_detail_views, detail_view, push_events,
  refresh_detail_views, refresh_queue_views, visible_queue_limit, queued_events, view_ids,
}

-- The issue that a view in the queue is for.
abbrev pub identifiers : List Issue → List Text
identifiers [] = []
identifiers (issue ∷ issues) = issue.identifier ∷ identifiers issues

module _ (config : ServiceConfig) where
  checked-IsSameWork :
      (s : LifecycleState) (issue : Issue) → IsSameWork s (can_dispatch_issue config s issue).0
  unfolding can_dispatch_issue
  checked-IsSameWork s issue = ground arith

  keep_dispatchable_lem :
      (s : LifecycleState) (issues : List Issue)
      → let (s', kept) = keep_dispatchable config s issues in
        IsSameWork s s' × All (λ (i : Issue). includes s.claimed_issue_ids i.id ≡ false) kept
  unfolding keep_dispatchable
  keep_dispatchable_lem s [] = ((refl, refl, refl), tt)
  keep_dispatchable_lem s (issue ∷ issues) =
      let s' = (can_dispatch_issue config s issue).0 in
      let free = is_dispatchable-IsDispatched config issue s.claimed_issue_ids in
      let (same, rest) = keep_dispatchable_lem s' issues in
      let (running, retries, claims) = checked-IsSameWork s issue in
      let rest' : All (λ (i : Issue). includes s.claimed_issue_ids i.id ≡ false)
          (keep_dispatchable config s' issues).1 =
        rw claims at rest in
      (
        (same.0 ∙ running, same.1 ∙ retries, same.2 ∙ claims),
        ground (arith, rest', (can_dispatch_issue_lem config s issue).2, free),
      )

  module _ (now : Text) (metadata : Issue → Text) where
    push_events_lem :
        (s : LifecycleState) (events : List RecentEvent)
        → IsSameWork s (push_events config now metadata s events)
    unfolding push_event push_recent_event_in_state
    push_events_lem s [] = (refl, refl, refl)
    push_events_lem s (event ∷ events) = push_events_lem (push_event s event) events

    has-put_detail_views :
        (s : LifecycleState) (views : Dict Text RuntimeIssueView) (issues : List Issue) (id : Text)
        → has (put_detail_views config now metadata s views issues) id
          ≡ (has views id || includes (identifiers issues) id)
    unfolding put_detail_views includes
    has-put_detail_views s views [] id = ground arith
    has-put_detail_views s views (issue ∷ issues) id =
        let view = detail_view config now metadata s issue in
        ground (
          arith,
          has-put_detail_views s (put views issue.identifier view) issues id,
          get-put views issue.identifier id view,
        )

    has-first_views :
        (s : LifecycleState) (issues : List Issue) (id : Text)
        → has (put_detail_views config now metadata s [] issues) id
          ≡ includes (identifiers issues) id
    unfolding get
    has-first_views s issues id = has-put_detail_views s [] issues id

    refresh_detail_views_lem :
        (s : LifecycleState) (next : Dict Text RuntimeIssueView)
        → let s' = refresh_detail_views config now metadata s next in
          (s'.detail_views ≡ next) × (s'.queued_views ≡ s.queued_views) × IsSameWork s s'
    refresh_detail_views_lem s next = ground arith

    All-take :
        (P : Issue → Type 0) (n : ℕ) (issues : List Issue) → All P issues → All P (take n issues)
    All-take P zero issues h = tt
    All-take P (suc n) [] h = tt
    All-take P (suc n) (issue ∷ issues) h = (h.0, All-take P n issues h.1)

    queued_views_lem :
        (s : LifecycleState) (claimed : List Text) (issues : List Issue)
        → All (λ (i : Issue). includes claimed i.id ≡ false) issues
        → let views = queued_views config now metadata s issues in
          (length views ≡ length issues)
          × All (λ (v : RuntimeIssueView). includes claimed v.issue_id ≡ false) views
    unfolding queued_view detail_view issue_view
    queued_views_lem s claimed [] h = (refl, tt)
    queued_views_lem s claimed (issue ∷ issues) h =
        let (size, rest) = queued_views_lem s claimed issues h.1 in
        (omega (arith, size), (h.0, rest))

module _ (host : Host) where
  includes-insert_issue :
      (issue : Issue) (issues : List Issue) (id : Text)
      → includes (identifiers (insert_issue host issue issues)) id
        ≡ includes (identifiers (issue ∷ issues)) id
  unfolding insert_issue includes
  includes-insert_issue issue [] id = refl
  includes-insert_issue issue (next ∷ issues) id =
      ground (arith, includes-insert_issue issue issues id)

  includes-sort_issues :
      (issues : List Issue) (id : Text)
      → includes (identifiers (sort_issues_for_dispatch host issues)) id
        ≡ includes (identifiers issues) id
  unfolding sort_issues_for_dispatch includes
  includes-sort_issues [] id = refl
  includes-sort_issues (issue ∷ issues) id = ground (
    arith,
    includes-insert_issue issue (sort_issues_for_dispatch host issues) id,
    includes-sort_issues issues id,
  )

-- A refresh shows at most fifty queued issues, none of which is claimed; there is a detail view for
-- exactly the identifiers of the issues that were given; and no worker, retry or claim is touched.
pub refresh_queue_views_lem :
    (config : ServiceConfig) (now : Text) (metadata : Issue → Text) (host : Host)
    (s : LifecycleState) (issues : List Issue)
    → let s' = refresh_queue_views config now metadata host s issues in
      (length s'.queued_views ≤ 50)
      × All
          (λ (v : RuntimeIssueView). includes s.claimed_issue_ids v.issue_id ≡ false)
          s'.queued_views
      × ((identifier : Text)
          → has s'.detail_views identifier ≡ includes (identifiers issues) identifier)
      × IsSameWork s s'
unfolding refresh_queue_views set_queued_views_in_state
refresh_queue_views_lem config now metadata host s issues =
    let sorted = sort_issues_for_dispatch host issues in
    let (s', dispatchable) = keep_dispatchable config s sorted in
    let visible = take visible_queue_limit dispatchable in
    let (same, free) = keep_dispatchable_lem config s sorted in
    let (size, shown) = queued_views_lem config now metadata s' s.claimed_issue_ids visible (
      All-take config now metadata (λ (i : Issue). includes s.claimed_issue_ids i.id ≡ false)
        visible_queue_limit dispatchable free) in
    let events =
      queued_events config now metadata (view_ids config now metadata s.queued_views) visible in
    let pushed = push_events_lem config now metadata s' events in
    let queued =
      set_queued_views_in_state (push_events config now metadata s' events)
        (queued_views config now metadata s' visible) in
    let (details, views, kept) =
      refresh_detail_views_lem config now metadata queued
        (put_detail_views config now metadata s' [] sorted) in
    (
      omega (arith, ap length views, size, length-take visible_queue_limit dispatchable),
      rw views shown,
      (λ identifier.
          ap (λ (m : Dict Text RuntimeIssueView). has m identifier) details
          ∙ (has-first_views config now metadata s' sorted identifier
              ∙ includes-sort_issues host issues identifier)),
      (kept.0 ∙ (pushed.0 ∙ same.0), kept.1 ∙ (pushed.1 ∙ same.1), kept.2 ∙ (pushed.2 ∙ same.2)),
    )
