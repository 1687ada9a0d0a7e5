-- ===== src/Memory/Idempotency/Runs.antt =====
-- Any interleaving of calls on one store, as a sequence of timed calls.
use evenkeel.Prelude.{
  ℕ, ◌+◌, ◌<◌, ◌≤◌, ◌≡◌, ◌∙◌, false, not, ◌&&◌, none, some, List, [], ◌∷◌, arith, if◌then◌else◌,
  inl, inr, Option-cases,
}
use evenkeel.Prelude.Text.{Text, text_beq, text_eq, text_beq_iff}
use evenkeel.Prelude.Dict.{lookup, erase, lookup-insert, lookup-erase}
use evenkeel.Ports.{Receipt, in_progress, completed, conflict, reservation}
use evenkeel.Memory.Idempotency.{
  Entry, Entries, seconds, unexpired, drop_expired, reserve, confirm, release, is_completed, answer,
}
use evenkeel.Memory.Idempotency.Laws.{
  view, fresh, confirmed, reserve_claims, reserve_held, confirm_held, view-release,
}

pub data Call : Type 0 where
  reserving : Text → Text → ℕ → Call
  confirming : Text → Receipt → ℕ → Call
  releasing : Text → Call

-- One call at an instant.
unfoldable pub step : ℕ → Call → Entries → Entries
step now (reserving key fingerprint ttl) d = (reserve now key fingerprint ttl d).1
step now (confirming key response ttl) d = confirm now key response ttl d
step now (releasing key) d = release now key d

unfoldable pub run : List (ℕ × Call) → Entries → Entries
run [] d = d
run ((now, c) ∷ calls) d = run calls (step now c d)

-- The calls are in the order of the clock, between two instants.
abbrev pub Within : ℕ → ℕ → List (ℕ × Call) → Type 0
Within s t [] = s ≤ t
Within s t ((now, c) ∷ calls) = (s ≤ now) × Within now t calls

-- A call that leaves the entry of a key alone: no confirmation of it, and no release of it while
-- it is a reservation.
abbrev pub Spares : Text → Entry → Call → Type 0
Spares key e (reserving k f ttl) = Unit {0}
Spares key e (confirming k r ttl) = text_beq k key ≡ false
Spares key e (releasing k) = (text_beq k key && not (is_completed e)) ≡ false

abbrev pub AllSpare : Text → Entry → List (ℕ × Call) → Type 0
AllSpare key e [] = Unit {0}
AllSpare key e ((now, c) ∷ calls) = Spares key e c × AllSpare key e calls

Within-le : (s t : ℕ) (calls : List (ℕ × Call)) → Within s t calls → s ≤ t
Within-le s t [] h = h
Within-le s t ((now, c) ∷ calls) h = omega (arith, h.0, Within-le now t calls h.1)

view-later :
    (s t : ℕ) (key : Text) (d : Entries) (e : Entry)
    → s ≤ t
    → t < e.expires_at
    → view s key d ≡ some e
    → view t key d ≡ some e
unfolding view unexpired
view-later s t key d e le lt held = ground arith

-- One call keeps a live entry that it spares.
step_keeps :
    (now : ℕ) (key : Text) (c : Call) (d : Entries) (e : Entry)
    → view now key d ≡ some e
    → Spares key e c
    → view now key (step now c d) ≡ some e
unfolding step reserve confirm view unexpired drop_expired
step_keeps now key (reserving k f ttl) d e held spare = ground (
  arith,
  lookup-erase k key d,
  lookup-insert k key (fresh now f ttl) d,
  lookup-insert k key (fresh now f ttl) (erase k d),
  text_beq_iff k key,
)
step_keeps now key (confirming k r ttl) d e held spare = elim (Option-cases (lookup k d)) [
  | inl missing ↦ ground (arith, missing, lookup-erase k key d, text_beq_iff k key)
  | inr (x, there) ↦ ground (
    arith,
    there,
    lookup-erase k key d,
    lookup-insert k key (confirmed now r ttl x) d,
    text_beq_iff k key,
  )
]
step_keeps now key (releasing k) d e held spare =
    rw (view-release now now k key d (omega arith)) (ground (arith, text_beq_iff k key))

-- Whatever is called in between, in any order, a live entry that the calls spare is still there at
-- any instant before it expires.
pub held_stays :
    (s t : ℕ) (key : Text) (calls : List (ℕ × Call)) (d : Entries) (e : Entry)
    → Within s t calls
    → t < e.expires_at
    → view s key d ≡ some e
    → AllSpare key e calls
    → view t key (run calls d) ≡ some e
unfolding run
held_stays s t key [] d e order lt held spare = view-later s t key d e order lt held
held_stays s t key ((now, c) ∷ calls) d e order lt held spare =
    let le : now ≤ t = Within-le now t calls order.1 in
    held_stays now t key calls (step now c d) e order.1 lt
      (step_keeps now key c d e (view-later s now key d e order.0 (omega arith) held) spare.0)
      spare.1

-- A key with nothing live under it that is claimed, for a ttl above 0, is claimed once: until the
-- ttl has passed, after any calls in the order of the clock that neither confirm nor release the
-- key, a second attempt with a ttl above 0 is told of work in progress if its fingerprint is the
-- same and of a conflict otherwise; it is never reserved.
pub claimed_once :
    (s t : ℕ) (key f g : Text) (ttl ttl' : ℕ) (calls : List (ℕ × Call)) (d : Entries)
    → 0 < ttl
    → 0 < ttl'
    → view s key d ≡ none
    → Within s t calls
    → t < s + seconds ttl
    → AllSpare key (fresh s f ttl) calls
    → (reserve t key g ttl' (run calls (reserve s key f ttl d).1)).0
      ≡ reservation (if text_beq f g then in_progress else conflict)
unfolding answer unexpired
claimed_once s t key f g ttl ttl' calls d p p' free order lt spare =
    (reserve_held t t key key g ttl' _ (fresh s f ttl) (omega arith) p' still).0 ∙ ground arith
  where
    start : view s key (reserve s key f ttl d).1 ≡ some (fresh s f ttl)
    start =
        (reserve_claims s s key key f ttl d (omega arith) p free).1
        ∙ ground (arith, text_beq_iff key key)

    still : view t key (run calls (reserve s key f ttl d).1) ≡ some (fresh s f ttl)
    still = held_stays s t key calls _ (fresh s f ttl) order lt start spare

-- A live key that is confirmed, for a ttl above 0, replays its response: until the ttl has passed,
-- after any calls in the order of the clock that do not confirm the key again, an attempt with the
-- entry's fingerprint and a ttl above 0 is answered with the response.
pub confirmed_replays :
    (s t : ℕ) (key : Text) (r : Receipt) (ttl ttl' : ℕ) (calls : List (ℕ × Call)) (d : Entries)
    (e : Entry)
    → 0 < ttl
    → 0 < ttl'
    → view s key d ≡ some e
    → Within s t calls
    → t < s + seconds ttl
    → AllSpare key (confirmed s r ttl e) calls
    → (reserve t key e.fingerprint ttl' (run calls (confirm s key r ttl d))).0 ≡ record {
      outcome = completed;
      stored = some (record { key = key; fingerprint = e.fingerprint; response = r });
    }
unfolding answer unexpired
confirmed_replays s t key r ttl ttl' calls d e p p' held order lt spare =
    (reserve_held t t key key e.fingerprint ttl' _ (confirmed s r ttl e) (omega arith) p' still).0
    ∙ ground (arith, text_beq_iff e.fingerprint e.fingerprint)
  where
    start : view s key (confirm s key r ttl d) ≡ some (confirmed s r ttl e)
    start =
        confirm_held s s key key r ttl d e (omega arith) p held
        ∙ ground (arith, text_beq_iff key key)

    still : view t key (run calls (confirm s key r ttl d)) ≡ some (confirmed s r ttl e)
    still = held_stays s t key calls _ (confirmed s r ttl e) order lt start spare
