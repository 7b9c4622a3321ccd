-- ===== src/Room/Presence/Ticks.antt =====
-- The heartbeats of the players: src/server/realtime/handlers/participant.ts and
-- src/server/realtime/services/local-playback-presence.ts.
use web_sync_play.Prelude.{
  subst, or_else, ℕ, ◌≡◌, refl, String, true, false, Option, none, some, [], ◌∷◌, arith, inl, inr,
  Bool-cases, lookup, insert, keep, str_eq, eq_iff, All, ◌||◌, not, All-keep_self,
}
use web_sync_play.Room.State.{Participant, SessionKind, LocalPlayback}
use web_sync_play.Room.Mutate.{MessageContext}
use web_sync_play.Room.Reports.{
  aggregate_local_playback_reports, LocalPlaybackReport, Reports, report_of, is_fresh,
  upsert_local_playback_report, prune_local_playback_reports,
}
use web_sync_play.Room.Handlers.Update.{
  ParticipantPatch, resolve_style, resolve_participant_update, resolve_local_playback_error,
  same_text, ParticipantUpdate,
}
use web_sync_play.Room.Presence.{
  stored_presence, plan_of, plan_participant_update, StoredPresence, previous_for_connection,
}

-- The report that was just written is fresh, and stays.
lookup-keep_fresh :
    (now : ℕ) (k : String) (r : LocalPlaybackReport) (reports : Reports)
    → r.updated_at ≡ now
    → lookup k (keep (is_fresh now) (insert k r reports)) ≡ some r
lookup-keep_fresh now k r [] e = ground (arith, eq_iff k k)
lookup-keep_fresh now k r ((j, q) ∷ rest) e =
    ground (arith, eq_iff j k, eq_iff k k, lookup-keep_fresh now k r rest e)

upsert_own :
    (reports : Reports) (k : String) (kind : SessionKind) (snapshot : LocalPlayback)
    → lookup k (upsert_local_playback_report reports k kind snapshot)
      ≡ some (report_of kind snapshot)
unfolding upsert_local_playback_report
upsert_own reports k kind snapshot =
    lookup-keep_fresh snapshot.updated_at k (report_of kind snapshot) reports refl

upsert_fresh :
    (reports : Reports) (k : String) (kind : SessionKind) (snapshot : LocalPlayback) (now : ℕ)
    → snapshot.updated_at ≡ now
    → All (λ e. is_fresh now e ≡ true) (upsert_local_playback_report reports k kind snapshot)
unfolding upsert_local_playback_report prune_local_playback_reports
upsert_fresh reports k kind snapshot now at =
    subst
      (λ n.
        All (λ e. is_fresh n e ≡ true)
          (keep (is_fresh snapshot.updated_at) (insert k (report_of kind snapshot) reports)))
      at (All-keep_self (is_fresh snapshot.updated_at) (insert k (report_of kind snapshot) reports))

same_text_refl : (o : Option String) → same_text o o ≡ true
same_text_refl none = refl
same_text_refl (some t) = ground (arith, eq_iff t t)

unchanged :
    (a b a' b' : String) → a' ≡ a → b' ≡ b → (not (str_eq a' a) || not (str_eq b' b)) ≡ false
unchanged a b a' b' e f = ground (arith, eq_iff a' a, eq_iff b' b)

-- The update that a tick amounts to: nothing of the identity, and the error stays.
tick_changes :
    (p : Participant) (patch : ParticipantPatch) (now : ℕ)
    → patch.username ≡ none
    → patch.avatar_style ≡ none
    → patch.error ≡ none
    → resolve_style p.avatar_style ≡ p.avatar_style
    → let changes = resolve_participant_update p patch now in
      (changes.identity_dirty ≡ false)
      × (same_text changes.local_playback.error changes.previous_error ≡ true)
      × (changes.local_playback.updated_at ≡ now)
unfolding resolve_participant_update
tick_changes p patch now u a e style = (
  unchanged p.username p.avatar_style (or_else patch.username p.username)
      (resolve_style (or_else patch.avatar_style p.avatar_style)) (rw u) (rw a style),
  rw (e, resolve_local_playback_error) (same_text_refl p.local_playback.error),
  refl,
)

previous_style :
    (reports : Reports) (connection_id : String) (p : Participant)
    → (previous_for_connection reports connection_id p).avatar_style ≡ p.avatar_style
previous_style reports connection_id p = ground arith

plan_of_tick :
    (connection_id : String) (kind : SessionKind) (error : Option (Option String)) (old : Reports)
    (changes : ParticipantUpdate)
    → changes.identity_dirty ≡ false
    → same_text changes.local_playback.error changes.previous_error ≡ true
    → let plan = plan_of connection_id kind error old changes in
      (plan.message ≡ none)
      × ((w : StoredPresence) × (plan.presence ≡ some w)
          × (w.reports
              ≡ some (upsert_local_playback_report old connection_id kind changes.local_playback)))
unfolding plan_of
plan_of_tick connection_id kind error old changes same kept =
    let reports = upsert_local_playback_report old connection_id kind changes.local_playback in
    let w =
      stored_presence changes
        (or_else (aggregate_local_playback_reports reports changes.now) changes.local_playback)
        reports in
    elim (Bool-cases changes.playback_dirty) [
      | inl d ↦ (rw (same, d, kept), (w, rw (same, d), refl))
      | inr d ↦ (rw (same, d), (w, rw (same, d), refl))
    ]

-- A tick of a player, which has no new name, avatar or error, sends no message to the room, however
-- the playback changed. It always stores the presence: the connection's report is the playback of this
-- tick, and no report is older than fifteen seconds. The participant has an avatar of a known style.
pub tick_stays_out :
    (ctx : MessageContext) (kind : SessionKind) (patch : ParticipantPatch) (now : ℕ)
    (p : Participant) (old : Reports)
    → patch.username ≡ none
    → patch.avatar_style ≡ none
    → patch.error ≡ none
    → resolve_style p.avatar_style ≡ p.avatar_style
    → let plan = plan_participant_update ctx kind patch now p old in
      let changes =
        resolve_participant_update (previous_for_connection old ctx.connection_id p) patch now in
      (plan.message ≡ none)
      × ((w : StoredPresence) × (reports : Reports) × (plan.presence ≡ some w)
          × (w.reports ≡ some reports)
          × (lookup ctx.connection_id reports ≡ some (report_of kind changes.local_playback))
          × All (λ e. is_fresh now e ≡ true) reports)
unfolding plan_participant_update
tick_stays_out ctx kind patch now p old u a e style =
    let q = previous_for_connection old ctx.connection_id p in
    let changes = resolve_participant_update q patch now in
    let (same, kept, at) =
      tick_changes q patch now u a e (rw (previous_style old ctx.connection_id p) style) in
    let (quiet, (w, stored, reports)) =
      plan_of_tick ctx.connection_id kind patch.error old changes same kept in
    (
      quiet,
      (
        w,
        upsert_local_playback_report old ctx.connection_id kind changes.local_playback,
        stored,
        reports,
        upsert_own old ctx.connection_id kind changes.local_playback,
        upsert_fresh old ctx.connection_id kind changes.local_playback now at,
      ),
    )
