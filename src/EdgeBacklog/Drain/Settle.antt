-- ===== src/EdgeBacklog/Drain/Settle.antt =====
-- internal/edgebacklog/backlog.go: what an accepted send does to the work that is left.
use monitoreoedgeis.Prelude.{
  ℕ, ◌≤◌, ◌<◌, ◌≡◌, refl, sym, ◌∙◌, ap, subst, inl, inr, Bool, false, ◌||◌, ◌&&◌, none, some,
  String, str_eq, List, [], ◌∷◌, arith, is_some, if-rule, if◌then◌else◌,
}
use monitoreoedgeis.Prelude.Map.{lookup}
use monitoreoedgeis.EdgeBacklog.{Record, Backlog, Submission}
use monitoreoedgeis.EdgeBacklog.Files.{replace_at, remove_at, persist_locked}
use monitoreoedgeis.EdgeBacklog.Inactive.{wake, mark_active}
use monitoreoedgeis.EdgeBacklog.Submit.{Environment}
use monitoreoedgeis.EdgeBacklog.Process.{
  Sender, advance, finish_record, keep_record, settle_sent, accepted,
}
use monitoreoedgeis.EdgeBacklog.Sequences.{persist_locked-queue, remove_locked-queue}
use monitoreoedgeis.EdgeBacklog.Synced.{
  persist_locked-synced, remove_locked-synced, mark_active_lem,
}
use monitoreoedgeis.EdgeBacklog.Drain.{sends_left, work, uuids_onto, IsReady, AllReady}
use monitoreoedgeis.EdgeBacklog.Drain.Send.{advance_lem}

module _ {G W D : Type 0} (env : Environment G) (sender : Sender G W D) where
  -- What the camera's records keep when they are woken: they are ready, and take the same sends.
  abbrev KeepsWork : ℕ → List (Record G) → List (Record G) → Type 0
  KeepsWork now q p =
      AllReady env sender now p
      × (work p ≡ work q)
      × ((done : List String) → uuids_onto p done ≡ uuids_onto q done)

  woken_with : ℕ → Bool → Record G → Record G
  woken_with now mine r = if mine then record r { next_attempt = now; inactive_since = none } else r

  IsReady-later :
      (now now' : ℕ) (r : Record G)
      → now ≤ now'
      → IsReady env sender now r
      → IsReady env sender now' r
  IsReady-later now now' r le h =
      (h.0, h.1, h.2, elim h.3 [ inl unset ↦ inl unset | inr due ↦ inr (omega arith) ])

  wake-KeepsWork :
      (now now' : ℕ) (key : String) (q : List (Record G)) (b : Backlog G)
      → now ≤ now'
      → AllReady env sender now q
      → KeepsWork now' q (wake env.fs env.marshal now' key q b).1
  unfolding wake work uuids_onto woken_with
  wake-KeepsWork now now' key [] b le h = (tt, refl, λ _. refl)
  wake-KeepsWork now now' key (r ∷ q) b le h =
      let mine = str_eq r.submission.event.candidate_key key in
      let woken = woken_with now' mine r in
      let head : IsReady env sender now' woken
          × (sends_left woken ≡ sends_left r)
          × (woken.submission.event.event_uuid ≡ r.submission.event.event_uuid) =
        if-rule
          (λ (x : Record G).
            IsReady env sender now' x
            × (sends_left x ≡ sends_left r)
            × (x.submission.event.event_uuid ≡ r.submission.event.event_uuid))
          mine (λ _. ((h.0.0, h.0.1, h.0.2, inr (omega arith)), refl, refl))
          (λ _. (IsReady-later now now' r le h.0, refl, refl)) in
      let rest =
        wake-KeepsWork now now' key q
          (if mine && is_some r.inactive_since
            then persist_locked env.fs env.marshal b woken
            else b)
          le h.1 in
      (
        (head.0, rest.0),
        omega (arith, head.1, rest.1),
        λ done.
            rest.2 (woken.submission.event.event_uuid ∷ done)
            ∙ ap (λ (u : String). uuids_onto q (u ∷ done)) head.2,
      )

  -- The queue begins with the record's sequence, and what follows takes the same sends as `rest`.
  abbrev HasHead : ℕ → Record G → List (Record G) → List (Record G) → Type 0
  HasHead now r rest q =
      (x : Record G) × (tail : List (Record G)) × (q ≡ x ∷ tail)
      × (x.sequence ≡ r.sequence)
      × KeepsWork now rest tail

  -- After a turn: less is left to send, and the same events are handed on in the end.
  abbrev pub Advances : ℕ → Backlog G → Backlog G → Type 0
  Advances now b c =
      AllReady env sender now c.queue
      × (work c.queue < work b.queue)
      × (uuids_onto c.queue c.synced ≡ uuids_onto b.queue b.synced)

  replace_at-head :
      (r x : Record G) (tail : List (Record G))
      → x.sequence ≡ r.sequence
      → replace_at r (x ∷ tail) ≡ r ∷ tail
  unfolding replace_at
  replace_at-head r x tail e = ground arith

  remove_at-head :
      (n : ℕ) (x : Record G) (tail : List (Record G))
      → x.sequence ≡ n
      → remove_at n (x ∷ tail) ≡ tail
  unfolding remove_at
  remove_at-head n x tail e = ground arith

  positive : (r : Record G) → 0 < sends_left r
  positive r = ground arith

  Advances-of :
      (now : ℕ) (b c : Backlog G) (q : List (Record G)) (s : List String)
      → c.queue ≡ q
      → c.synced ≡ s
      → AllReady env sender now q
      → work q < work b.queue
      → uuids_onto q s ≡ uuids_onto b.queue b.synced
      → Advances now b c
  Advances-of now b c q s at done ready less same = rw (at, done) (ready, less, same)

  -- The backlog `c` in which a record of `b`'s head is settled: its synced events are `b`'s.
  module _ (now : ℕ) (b c : Backlog G) (r₀ r : Record G) (rest : List (Record G))
      (whole : b.queue ≡ r₀ ∷ rest) (sub : r.submission ≡ r₀.submission)
      (synced : c.synced ≡ b.synced) (head : HasHead now r rest c.queue) where
    finish-Advances : Advances now b (finish_record env c r)
    unfolding finish_record
    finish-Advances =
        let (x, tail, at, same, kept) = head in
        Advances-of now b (finish_record env c r) tail (r.submission.event.event_uuid ∷ c.synced)
          (remove_locked-queue env.fs c r
            ∙ ap (remove_at r.sequence) at
            ∙ remove_at-head r.sequence x tail same)
          (ap (λ (s : List String). r.submission.event.event_uuid ∷ s)
            (remove_locked-synced env.fs c r))
          kept.0 (rw whole (unfold work in omega (arith, kept.1, positive r₀)))
          (rw (whole, synced, sub) (unfold uuids_onto in kept.2 _))

    keep-Advances :
        (r' : Record G)
        → r'.sequence ≡ r.sequence
        → r'.submission ≡ r.submission
        → IsReady env sender now r'
        → sends_left r' < sends_left r₀
        → Advances now b (keep_record env c r')
    unfolding keep_record
    keep-Advances r' same_seq same_sub ready less =
        let (x, tail, at, same, kept) = head in
        Advances-of now b (keep_record env c r') (r' ∷ tail) c.synced
          (persist_locked-queue env.fs env.marshal (record c { queue = replace_at r' c.queue }) r'
            ∙ ap (replace_at r') at
            ∙ replace_at-head r' x tail (same ∙ sym same_seq))
          (persist_locked-synced env.fs env.marshal (record c { queue = replace_at r' c.queue }) r')
          (ready, kept.0) (rw whole (unfold work in omega (arith, kept.1, less)))
          (rw (whole, synced)
            (unfold uuids_onto in
              kept.2 (r'.submission.event.event_uuid ∷ b.synced)
              ∙ ap (λ (u : Submission G). uuids_onto rest (u.event.event_uuid ∷ b.synced))
                  (same_sub ∙ sub)))

  settle_sent-Advances :
      (now : ℕ) (b c : Backlog G) (r₀ r : Record G) (rest : List (Record G))
      → b.queue ≡ r₀ ∷ rest
      → r.submission ≡ r₀.submission
      → c.synced ≡ b.synced
      → HasHead now r rest c.queue
      → sends_left r ≡ sends_left r₀
      → IsReady env sender now r
      → Advances now b (settle_sent env now c r)
  unfolding settle_sent
  settle_sent-Advances now b c r₀ r rest whole sub synced head same_left ready =
      let sent = record c { last_success = some now; last_error = ""; degraded = false } in
      let next = record r { stage = advance r } in
      if-rule (Advances now b) (str_eq (advance r) "complete") {x = finish_record env sent r}
        {y = keep_record env sent next}
        (λ _. finish-Advances now b sent r₀ r rest whole sub synced head)
        (λ goes_on. elim (advance_lem r ready.0) [
          | inl ends ↦ absurd (cc (ends, goes_on))
          | inr (fits, less) ↦
              keep-Advances now b sent r₀ r rest whole sub synced head next refl refl
                (fits, ready.1, ready.2, ready.3) (omega arith)
        ])

  AllReady-later :
      (now now' : ℕ) (q : List (Record G))
      → now ≤ now'
      → AllReady env sender now q
      → AllReady env sender now' q
  AllReady-later now now' [] le h = tt
  AllReady-later now now' (r ∷ q) le h =
      (IsReady-later now now' r le h.0, AllReady-later now now' q le h.1)

  wake-HasHead :
      (now now' : ℕ) (key : String) (r : Record G) (rest : List (Record G)) (c : Backlog G)
      → now ≤ now'
      → AllReady env sender now rest
      → HasHead now' r rest (wake env.fs env.marshal now' key (r ∷ rest) c).1
  unfolding wake
  wake-HasHead now now' key r rest c le h =
      let mine = str_eq r.submission.event.candidate_key key in
      let woken : Record G =
        if mine then record r { next_attempt = now'; inactive_since = none } else r in
      let written : Backlog G =
        if mine && is_some r.inactive_since then persist_locked env.fs env.marshal c woken else c in
      (
        woken,
        (wake env.fs env.marshal now' key rest written).1,
        refl,
        if-rule (λ (x : Record G). x.sequence ≡ r.sequence) mine (λ _. refl) (λ _. refl),
        wake-KeepsWork now now' key rest written le h,
      )

  pub accepted-Advances :
      (now now' : ℕ) (b : Backlog G) (r : Record G) (rest : List (Record G))
      → now ≤ now'
      → b.queue ≡ r ∷ rest
      → AllReady env sender now b.queue
      → Advances now' b (accepted env now' b r)
  unfolding accepted
  accepted-Advances now now' b r rest le whole ready =
      let key = r.submission.event.candidate_key in
      let all : AllReady env sender now (r ∷ rest) =
        subst (λ (q : List (Record G)). AllReady env sender now q) whole ready in
      if-rule (Advances now' b)
        (is_some (lookup key b.inactive_candidates) || is_some r.inactive_since)
        {x = settle_sent env now' (mark_active env.fs env.marshal env.marshal_state now' key b)
          (record r { inactive_since = none })}
        {y = settle_sent env now' b r}
        (λ _.
          settle_sent-Advances now' b (mark_active env.fs env.marshal env.marshal_state now' key b)
            r (record r { inactive_since = none }) rest whole refl
            (mark_active_lem env now' key b).0
            (let (_, (c, woken)) = mark_active_lem env now' key b in
              subst (HasHead now' r rest)
                (sym (woken ∙ ap (λ q. (wake env.fs env.marshal now' key q c).1) whole))
                (wake-HasHead now now' key r rest c le all.1))
            refl (IsReady-later now now' r le all.0))
        (λ _.
          settle_sent-Advances now' b b r r rest whole refl refl
            (r, rest, whole, refl, (AllReady-later now now' rest le all.1, refl, λ _. refl)) refl
            (IsReady-later now now' r le all.0))
