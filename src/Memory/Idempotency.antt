-- ===== src/Memory/Idempotency.antt =====
-- `InMemoryIdempotencyStore` of src/evenkeel/infrastructure/adapters/memory/idempotency.py. A
-- method reads the clock once here; its two readings in the source have no `await` between them.
pub mod Laws
pub mod Runs
use evenkeel.Prelude.{
  ℕ, ◌+◌, ◌*◌, Bool, true, false, not, Option, none, some, [], leb, ◌==◌, if◌then◌else◌,
}
use evenkeel.Prelude.Text.{Text, text_beq, text_eq}
use evenkeel.Prelude.Dict.{Dict, lookup, insert, erase}
use evenkeel.Ports.{
  Receipt, IdempotencyReservation, IdempotencyRecord, reserved, in_progress, completed, conflict,
  reservation,
}

pub record Entry : Type 0 where
  pub fingerprint : Text
  pub expires_at : ℕ
  pub response : Option Receipt

abbrev pub Entries : Type 0
Entries = Dict Text Entry

-- A ttl in seconds, on the clock.
abbrev pub seconds : ℕ → ℕ
seconds n = 1000 * n

-- What `_live` returns for the entry that it found.
unfoldable pub unexpired : ℕ → Option Entry → Option Entry
unexpired now none = none
unexpired now (some e) = if leb e.expires_at now then none else some e

-- What `_live` leaves of the store: an expired entry is dropped.
unfoldable pub drop_expired : ℕ → Text → Option Entry → Entries → Entries
drop_expired now key none d = d
drop_expired now key (some e) d = if leb e.expires_at now then erase key d else d

unfoldable pub live : ℕ → Text → Entries → Option Entry × Entries
unfolding unexpired drop_expired
live now key d = (unexpired now (lookup key d), drop_expired now key (lookup key d) d)

-- The answer about a live entry.
unfoldable pub answer : Text → Text → Entry → Option Receipt → IdempotencyReservation
answer key fingerprint existing response =
    if not (text_beq existing.fingerprint fingerprint)
    then reservation conflict
    else elim response [
      | none ↦ reservation in_progress
      | some r ↦ record {
        outcome = completed;
        stored = some (record { key = key; fingerprint = existing.fingerprint; response = r });
      }
    ]

abbrev claim : ℕ → Text → Text → ℕ → Option Entry → Entries → IdempotencyReservation × Entries
claim now key fingerprint ttl none d = (
  reservation reserved,
  insert key (record { fingerprint = fingerprint; expires_at = now + seconds ttl; response = none })
      d,
)
claim now key fingerprint ttl (some existing) d =
    (answer key fingerprint existing existing.response, d)

-- `reserve`; a ttl that is not positive claims nothing.
unfoldable pub reserve : ℕ → Text → Text → ℕ → Entries → IdempotencyReservation × Entries
unfolding live answer
reserve now key fingerprint ttl d =
    let (existing, d') = live now key d in
    if ttl == 0 then (reservation reserved, d) else claim now key fingerprint ttl existing d'

abbrev complete : ℕ → Text → Receipt → ℕ → Option Entry → Entries → Entries
complete now key response ttl none d = d
complete now key response ttl (some existing) d =
    insert key (record existing { response = some response; expires_at = now + seconds ttl }) d

unfoldable pub confirm : ℕ → Text → Receipt → ℕ → Entries → Entries
unfolding live
confirm now key response ttl d =
    let (existing, d') = live now key d in
    if ttl == 0 then d else complete now key response ttl existing d'

abbrev pub is_completed : Entry → Bool
is_completed e = elim e.response [ none ↦ false | some _ ↦ true ]

abbrev give_back : Text → Option Entry → Entries → Entries
give_back key none d = d
give_back key (some e) d = if not (is_completed e) then erase key d else d

unfoldable pub release : ℕ → Text → Entries → Entries
unfolding live
release now key d = let (existing, d') = live now key d in give_back key existing d'
