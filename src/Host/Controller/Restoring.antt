-- ===== src/Host/Controller/Restoring.antt =====
-- The restore loop of crates/luminal-vgd-host/src/controller.rs: probes that fail and back off, and
-- the frames after a probe that succeeds.
use luminal_vgd.Prelude.{
  ℕ, zero, suc, ◌+◌, ◌*◌, ◌^◌, ◌%◌, ◌<◌, ◌≤◌, min, true, false, some, List, [], ◌∷◌, ◌++◌, length,
  ◌≡◌, refl, ap, ◌∙◌, inl, inr, Bool-cases, if◌then◌else◌, leb, ltb, arith,
}
use native.Mathlib.Nat.{two-pow-succ, mul_comm, mul_assoc}
use luminal_vgd.Host.Notice.{FallbackReason}
use luminal_vgd.Host.Notice
use luminal_vgd.Host.Controller.{
  CaptureController, direct_encode, Action, teardown_wgc, use_direct, force_keyframe, notify,
  schedule_restore_probe, healthy, unavailable, RestoreTrack, is_fallback, restore_probe_result,
  on_probe, warm_frame, direct_frame_ok, is_driver_absent,
}

-- Probes that all fail, each with its time and its reason.
unfoldable pub fail_probes :
    List (ℕ × FallbackReason) → CaptureController → List Action × CaptureController
fail_probes [] c = ([], c)
fail_probes ((now_ms, why) ∷ l) c =
    let (first, c') = restore_probe_result now_ms (unavailable why) c in
    let (rest, c'') = fail_probes l c' in (first ++ rest, c'')

-- Frames that arrive from the driver's ring.
unfoldable pub direct_frames : ℕ → CaptureController → List Action × CaptureController
direct_frames zero c = ([], c)
direct_frames (suc n) c =
    let (first, c') = direct_frame_ok c in
    let (rest, c'') = direct_frames n c' in (first ++ rest, c'')

min-double : (b m k : ℕ) → min (min (b * 2 ^ k) m * 2) m ≡ min (b * 2 ^ suc k) m
min-double b m k = rw (two-pow-succ k) (
    omega
      (arith, ap (λ (p : ℕ). b * p) (two-pow-succ k), mul_comm (2 ^ k) 2, mul_assoc b (2 ^ k) 2))

failed_probe :
    (now_ms : ℕ) (why : FallbackReason) (c : CaptureController) (t : RestoreTrack)
    → is_fallback c.mode ≡ true
    → c.restore ≡ some t
    → t.backoff_ms < 2 ^ 63
    → let backoff = min (t.backoff_ms * 2) c.cfg.restore_max_backoff_ms in
      restore_probe_result now_ms (unavailable why) c ≡ (
        schedule_restore_probe ((now_ms + backoff) % 2 ^ 64) ∷ [],
        record c {
          driver_present = if is_driver_absent why then false else c.driver_present;
          restore = some (record t { backoff_ms = backoff });
        },
      )
unfolding restore_probe_result on_probe
failed_probe now_ms why c t fallback tracked small = rw (fallback, tracked) (ground arith)

-- The probes that are scheduled when probes fail, after `k` have failed.
unfoldable pub schedules : ℕ → ℕ → ℕ → List (ℕ × FallbackReason) → List Action
schedules initial limit k [] = []
schedules initial limit k ((now_ms, why) ∷ l) =
    schedule_restore_probe ((now_ms + min (initial * 2 ^ suc k) limit) % 2 ^ 64)
    ∷ schedules initial limit (suc k) l

abbrev pub backed_off : RestoreTrack → ℕ → ℕ → ℕ → RestoreTrack
backed_off t initial limit k = record t { backoff_ms = min (initial * 2 ^ k) limit }

fail_probes-from :
    (l : List (ℕ × FallbackReason)) (initial k : ℕ) (c : CaptureController) (t : RestoreTrack)
    → is_fallback c.mode ≡ true
    → c.cfg.restore_max_backoff_ms < 2 ^ 63
    → c.restore ≡ some (backed_off t initial c.cfg.restore_max_backoff_ms k)
    → ((fail_probes l c).0 ≡ schedules initial c.cfg.restore_max_backoff_ms k l)
      × ((fail_probes l c).1.mode ≡ c.mode)
      × ((fail_probes l c).1.restore
          ≡ some (backed_off t initial c.cfg.restore_max_backoff_ms (k + length l)))
unfolding fail_probes schedules
fail_probes-from [] initial k c t fallback bounded tracked = (
  refl,
  refl,
  tracked ∙ ap (λ n. some (backed_off t initial c.cfg.restore_max_backoff_ms n)) k_plus,
)
  where
    k_plus : k ≡ k + 0
    k_plus = omega arith
fail_probes-from ((now_ms, why) ∷ l) initial k c t fallback bounded tracked =
    let limit = c.cfg.restore_max_backoff_ms in
    let present = if is_driver_absent why then false else c.driver_present in
    let c' : CaptureController = record c {
      driver_present = present;
      restore = some (backed_off t initial limit (suc k));
    } in
    let rest = fail_probes-from l initial (suc k) c' t fallback bounded refl in
    let shift : suc k + length l ≡ k + suc (length l) = omega arith in
    rw
      (
        failed_probe now_ms why c (backed_off t initial limit k) fallback tracked (omega arith),
        min-double initial limit k,
      )
      (
        ap
            (λ acts.
              schedule_restore_probe ((now_ms + min (initial * 2 ^ suc k) limit) % 2 ^ 64) ∷ acts)
            rest.0,
        rest.1,
        rest.2 ∙ ap (λ n. some (backed_off t initial limit n)) shift,
      )

-- In fallback, probes that fail never end the restore loop: each schedules the next, the k-th
-- after its time by the first backoff times 2 ^ k, or by the limit where that is less; the mode
-- stays, and the track holds the backoff of the last probe. The first backoff is at most the limit,
-- and the limit is below 2 ^ 63.
pub fail_probes-schedules :
    (l : List (ℕ × FallbackReason)) (c : CaptureController) (t : RestoreTrack)
    → is_fallback c.mode ≡ true
    → c.restore ≡ some t
    → t.backoff_ms ≤ c.cfg.restore_max_backoff_ms
    → c.cfg.restore_max_backoff_ms < 2 ^ 63
    → ((fail_probes l c).0 ≡ schedules t.backoff_ms c.cfg.restore_max_backoff_ms 0 l)
      × ((fail_probes l c).1.mode ≡ c.mode)
      × ((fail_probes l c).1.restore
          ≡ some (backed_off t t.backoff_ms c.cfg.restore_max_backoff_ms (length l)))
fail_probes-schedules l c t fallback tracked within bounded =
    let limit = c.cfg.restore_max_backoff_ms in
    let first : t.backoff_ms ≡ min (t.backoff_ms * 2 ^ 0) limit = omega arith in
    let count : 0 + length l ≡ length l = omega arith in
    let run =
      fail_probes-from l t.backoff_ms 0 c t fallback bounded
        (tracked ∙ ap (λ n. some (record t { backoff_ms = n })) first) in
    (run.0, run.1, run.2 ∙ ap (λ n. some (backed_off t t.backoff_ms limit n)) count)

cold_frames :
    (n : ℕ) (c : CaptureController) (t : RestoreTrack)
    → direct_frames n
        (record c { mode = direct_encode; restore = some (record t { warm_wgc = false }) })
      ≡ ([], record c { mode = direct_encode; restore = some (record t { warm_wgc = false }) })
unfolding direct_frames direct_frame_ok
cold_frames zero c t = refl
cold_frames (suc n) c t = cold_frames n c t

warm_frames :
    (n s : ℕ) (c : CaptureController) (t : RestoreTrack)
    → c.cfg.restore_stable_frames < 2 ^ 32
    → s < c.cfg.restore_stable_frames
    → direct_frames n (record c {
      mode = direct_encode;
      restore = some (record t { warm_wgc = true; stable_frames = s });
    })
      ≡ (
        (if leb c.cfg.restore_stable_frames (s + n) then teardown_wgc ∷ [] else []),
        record c {
          mode = direct_encode;
          restore = some (record t {
            warm_wgc = ltb (s + n) c.cfg.restore_stable_frames;
            stable_frames = min (s + n) c.cfg.restore_stable_frames;
          });
        },
      )
unfolding direct_frames direct_frame_ok warm_frame
warm_frames zero s c t bounded below = ground arith
warm_frames (suc n) s c t bounded below =
    let frames : (s + 1) % 2 ^ 32 ≡ s + 1 = omega arith in
    elim (Bool-cases (leb c.cfg.restore_stable_frames (s + 1))) [
      | inl stable ↦
          rw (frames, stable, cold_frames n c (record t { stable_frames = s + 1 })) (ground arith)
      | inr more ↦
          let below' : s + 1 < c.cfg.restore_stable_frames = ground arith in
          let rest = warm_frames n (s + 1) c t bounded below' in
          let sum : s + 1 + n ≡ s + suc n = omega arith in
          let rest' = rw sum at rest in rw (frames, more) rest'
    ]

-- A probe that succeeds in fallback restores direct encoding and keeps the other session warm: of
-- the frames that follow, exactly the restore_stable_frames-th tears that session down, and no
-- other frame acts. The number of stable frames is positive and fits its 32 bits.
pub restored-direct_frames :
    (now_ms generation n : ℕ) (c : CaptureController) (t : RestoreTrack)
    → is_fallback c.mode ≡ true
    → c.restore ≡ some t
    → 0 < c.cfg.restore_stable_frames
    → c.cfg.restore_stable_frames < 2 ^ 32
    → ((restore_probe_result now_ms (healthy generation) c).0
        ≡ use_direct generation ∷ force_keyframe ∷ notify Notice.restored ∷ [])
      × ((direct_frames n (restore_probe_result now_ms (healthy generation) c).1).0
          ≡ (if leb c.cfg.restore_stable_frames n then teardown_wgc ∷ [] else []))
unfolding restore_probe_result on_probe
restored-direct_frames now_ms generation n c t fallback tracked some_frames bounded =
    let c' : CaptureController = record c { driver_present = true; last_generation = generation } in
    let t' : RestoreTrack = record t { backoff_ms = c.cfg.restore_initial_backoff_ms } in
    let run = ap (λ r. r.0) (warm_frames n 0 c' t' bounded some_frames) in
    let count : 0 + n ≡ n = omega arith in rw (fallback, tracked) (refl, rw count at run)
