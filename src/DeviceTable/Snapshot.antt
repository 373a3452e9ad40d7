-- ===== src/DeviceTable/Snapshot.antt =====
-- `snapshot` against its specification: the reportable entries in table order, as many as fit.
use base_platform_zephyr_ble.Prelude.{
  ℕ, zero, suc, ◌≤◌, ◌≡◌, refl, ap, ◌∙◌, inl, inr, List, [], ◌∷◌, arith, length, take, select,
  Bool-cases,
}
use base_platform_zephyr_ble.Config.{Config}
use base_platform_zephyr_ble.DeviceTable.{Entry, Table, is_reportable, snapshot_loop, snapshot}
use base_platform_zephyr_ble.DeviceTable.Upsert.{Inv}

abbrev pub reportable : Config → ℕ → Table → List Entry
reportable c now t = select (is_reportable c now) t.entries

snapshot_loop-eq-take :
    (c : Config) (now : ℕ) (es : List Entry) (room : ℕ)
    → snapshot_loop c now es room ≡ take room (select (is_reportable c now) es)
unfolding snapshot_loop
snapshot_loop-eq-take c now es zero = refl
snapshot_loop-eq-take c now [] (suc room) = refl
snapshot_loop-eq-take c now (e ∷ es) (suc room) = elim (Bool-cases (is_reportable c now e)) [
  | inl h ↦ simp (h, snapshot_loop) (ap (◌∷◌ e) (snapshot_loop-eq-take c now es room))
  | inr h ↦ simp (h, snapshot_loop) (snapshot_loop-eq-take c now es (suc room))
]

-- A snapshot is the first `room` entries, in table order, that are in use, fresh and not reported.
pub snapshot-eq-take :
    (c : Config) (t : Table) (now room : ℕ) → snapshot c t now room ≡ take room (reportable c now t)
unfolding snapshot
snapshot-eq-take c t now room = snapshot_loop-eq-take c now t.entries room

length-select :
    (c : Config) (now : ℕ) (es : List Entry) → length (select (is_reportable c now) es) ≤ length es
length-select c now [] = omega arith
length-select c now (e ∷ es) = elim (Bool-cases (is_reportable c now e)) [
  | inl h ↦ simp h (omega (arith, length-select c now es))
  | inr h ↦ simp h (omega (arith, length-select c now es))
]

take_all : (es : List Entry) (n : ℕ) → length es ≤ n → take n es ≡ es
take_all [] zero h = refl
take_all [] (suc n) h = refl
take_all (e ∷ es) zero h = absurd (omega arith)
take_all (e ∷ es) (suc n) h = ap (◌∷◌ e) (take_all es n (omega arith))

-- Under the invariant, with room for the whole table, as svc::comms gives it, no pending device is
-- left out.
pub snapshot-eq-reportable :
    (c : Config) (t : Table) (now : ℕ)
    → Inv c t
    → snapshot c t now c.max_devices ≡ reportable c now t
snapshot-eq-reportable c t now v =
    snapshot-eq-take c t now c.max_devices
    ∙ take_all (reportable c now t) c.max_devices
        (let s = v.size in omega (arith, length-select c now t.entries))
