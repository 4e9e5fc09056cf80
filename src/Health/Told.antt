-- ===== src/Health/Told.antt =====
-- What a watcher is told by what is sent to it.
use connect_plugin_go.Prelude.{
  ℕ, ◌≡◌, refl, ap, sym, ◌∙◌, inl, inr, Bool, true, false, Option, none, some, List, [], ◌∷◌, ◌++◌,
  arith, Bool-cases, Option-cases, nat_eq, if◌then◌else◌,
}
use connect_plugin_go.Health.{
  ServingStatus, HealthWatcher, remove_watcher, same_status, was_sent, receive, receive_by,
  notify_all,
}

abbrev pub last_of : List ServingStatus → Option ServingStatus
last_of [] = none
last_of (s ∷ []) = some s
last_of (s ∷ t ∷ l) = last_of (t ∷ l)

-- No status is sent twice in a row.
abbrev pub no_repeat : List ServingStatus → Bool
no_repeat [] = true
no_repeat (s ∷ []) = true
no_repeat (s ∷ t ∷ l) = if same_status t s then false else no_repeat (t ∷ l)

-- What the watcher will have been sent once its channel is empty.
abbrev pub heard : HealthWatcher → Option ServingStatus
heard w = elim w.ch [ none ↦ last_of w.sent | some status ↦ some status ]

pub record IsTold (status : ServingStatus) (w : HealthWatcher) : Type 0 where
  pub current : heard w ≡ some status
  pub recorded : w.last_sent ≡ last_of w.sent
  pub changes : no_repeat w.sent ≡ true

abbrev pub AllTold : ServingStatus → List HealthWatcher → Type 0
AllTold status [] = Unit
AllTold status (w ∷ ws) = IsTold status w × AllTold status ws

same_status_iff : (s t : ServingStatus) → same_status s t ≡ true → s ≡ t
same_status_iff s t h = ground arith

was_sent_iff :
    (last : Option ServingStatus) (s : ServingStatus) → was_sent last s ≡ true → last ≡ some s
was_sent_iff none s h = cc
was_sent_iff (some t) s h = ap some (sym (same_status_iff s t h))

last_of-append : (l : List ServingStatus) (s : ServingStatus) → last_of (l ++ s ∷ []) ≡ some s
last_of-append [] s = refl
last_of-append (t ∷ []) s = refl
last_of-append (t ∷ u ∷ l) s = last_of-append (u ∷ l) s

no_repeat-append :
    (l : List ServingStatus) (s : ServingStatus)
    → no_repeat l ≡ true
    → was_sent (last_of l) s ≡ false
    → no_repeat (l ++ s ∷ []) ≡ true
no_repeat-append [] s h k = refl
no_repeat-append (t ∷ []) s h k = ground arith
no_repeat-append (t ∷ u ∷ l) s h k = ground (arith, no_repeat-append (u ∷ l) s)

receive-IsTold :
    (status : ServingStatus) (w : HealthWatcher) → IsTold status w → IsTold status (receive w)
unfolding receive
receive-IsTold status w i = elim (Option-cases w.ch) [
  | inl empty ↦ rw (empty, receive) i
  | inr (s, e) ↦ elim (Bool-cases (was_sent w.last_sent s)) [
    | inl again ↦
        rw (e, again, receive)
          (record {
            current = ground (arith, e, i.current, i.recorded, was_sent_iff w.last_sent s again);
            recorded = i.recorded;
            changes = i.changes;
          })
    | inr new ↦
        rw (e, new, receive)
          (record {
            current = last_of-append w.sent s ∙ ground (arith, e, i.current);
            recorded = sym (last_of-append w.sent s);
            changes = no_repeat-append w.sent s i.changes (rw i.recorded at new);
          })
  ]
]

pub receive_by-AllTold :
    (status : ServingStatus) (identity : ℕ) (ws : List HealthWatcher)
    → AllTold status ws
    → AllTold status (receive_by identity ws)
unfolding receive_by
receive_by-AllTold status identity [] a = tt
receive_by-AllTold status identity (w ∷ ws) a = elim (Bool-cases (nat_eq w.identity identity)) [
  | inl this ↦ rw (this, receive_by) (receive-IsTold status w a.0, a.1)
  | inr other ↦ rw (other, receive_by) (a.0, receive_by-AllTold status identity ws a.1)
]

pub remove_watcher-AllTold :
    (status : ServingStatus) (identity : ℕ) (ws : List HealthWatcher)
    → AllTold status ws
    → AllTold status (remove_watcher identity ws)
unfolding remove_watcher
remove_watcher-AllTold status identity [] a = tt
remove_watcher-AllTold status identity (w ∷ ws) a = elim (Bool-cases (nat_eq w.identity identity)) [
  | inl this ↦ rw (this, remove_watcher) a.1
  | inr other ↦ rw (other, remove_watcher) (a.0, remove_watcher-AllTold status identity ws a.1)
]

pub AllTold-append :
    (status : ServingStatus) (ws : List HealthWatcher) (w : HealthWatcher)
    → AllTold status ws
    → IsTold status w
    → AllTold status (ws ++ w ∷ [])
AllTold-append status [] w a i = (i, tt)
AllTold-append status (v ∷ ws) w a i = (a.0, AllTold-append status ws w a.1 i)

-- Whatever the watchers were told before, they are told the new status.
pub notify_all-AllTold :
    (old status : ServingStatus) (ws : List HealthWatcher)
    → AllTold old ws
    → AllTold status (notify_all status ws)
unfolding notify_all
notify_all-AllTold old status [] a = tt
notify_all-AllTold old status (w ∷ ws) a = (
  record { current = refl; recorded = a.0.recorded; changes = a.0.changes },
  notify_all-AllTold old status ws a.1,
)
