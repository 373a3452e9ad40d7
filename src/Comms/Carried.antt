-- ===== src/Comms/Carried.antt =====
-- A pending reading goes out: some payload of the dispatch carries its record.
use base_platform_zephyr_ble.Prelude.{
  ℕ, zero, suc, ◌+◌, ◌*◌, ◌%◌, ◌^◌, ◌≤◌, ◌<◌, ◌≡◌, refl, sym, ap, Bool, true, false, inl, inr, List,
  [], ◌∷◌, ◌++◌, some, length, length-take, length-drop, take, drop, ltb, leb, ◌==◌, if◌then◌else◌,
  if-keeps, arith, Any, Any-split, Any-select, Bool-cases,
}
use mathlib.Core.Path.{subst}
use mathlib.Core.List.{append_assoc}
use base_platform_zephyr_ble.Config.{Config}
use base_platform_zephyr_ble.DeviceTable.{Entry, is_reportable}
use base_platform_zephyr_ble.DeviceTable.Lookup.{lookup, holds}
use base_platform_zephyr_ble.DeviceTable.Snapshot.{snapshot-eq-reportable}
use base_platform_zephyr_ble.DeviceTable.Upsert.{Inv}
use base_platform_zephyr_ble.Link.{Link, no_error}
use base_platform_zephyr_ble.Comms.{
  World, Env, EndpointRecord, header_size, record_size, to_record, record_bytes, records_bytes,
  header_bytes, header_of, next_sequence, send_fragment, send_fragments, send_records,
  send_snapshot, fragments_needed, dispatch,
}
use base_platform_zephyr_ble.Comms.Fragments.{
  packet, length-packet, Fragment, taken, refused, send_fragment-Fragment, AllAddressed-take,
  AllAddressed-drop,
}
use base_platform_zephyr_ble.Comms.Dispatch.{Ready, room_for, pending, AllAddressed-snapshot}
use base_platform_zephyr_ble.Comms.Fragments.Reach.{Reaches, here, after, Reaches-le}
use base_platform_zephyr_ble.Comms.Wire.{AllAddressed}
use base_platform_zephyr_ble.Comms.Complete.{Smooth}

-- The bytes hold the record `r`.
pub record Carries (r : EndpointRecord) (payload : List ℕ) : Type 0 where
  pub before : List ℕ
  pub behind : List ℕ
  pub bytes : payload ≡ before ++ (record_bytes r ++ behind)

records_bytes-Carries :
    (es : List Entry) (now_s : ℕ) (r : EndpointRecord)
    → Any (λ e. to_record e now_s ≡ r) es
    → Carries r (records_bytes es now_s)
unfolding records_bytes
records_bytes-Carries [] now_s r a = elim a [ ]
records_bytes-Carries (e ∷ es) now_s r (inl h) = record {
  before = [];
  behind = records_bytes es now_s;
  bytes = ap (λ x. record_bytes x ++ records_bytes es now_s) h;
}
records_bytes-Carries (e ∷ es) now_s r (inr a) =
    let v = records_bytes-Carries es now_s r a in
    record {
      before = record_bytes (to_record e now_s) ++ v.before;
      behind = v.behind;
      bytes = rw v.bytes (sym (append_assoc (record_bytes (to_record e now_s)) v.before _));
    }

module _ {L : Type 0} (c : Config) (link : Link L) (env : Env) (r : EndpointRecord) where
  packet-Carries :
      (es : List Entry) (i n now_s : ℕ) (beat : Bool) (w : World L)
      → Any (λ e. to_record e now_s ≡ r) es
      → Carries r (packet c link env es i n now_s beat w)
  packet-Carries es i n now_s beat w a =
      let v = records_bytes-Carries es now_s r a in
      let header = header_bytes (header_of c link env (length es) i n beat w) in
      record {
        before = header ++ v.before;
        behind = v.behind;
        bytes = rw v.bytes (sym (append_assoc header v.before _));
      }

  -- The history holds a payload with the record.
  abbrev pub Carried : World L → Type 0
  Carried w = Any (Carries r) w.offered

  send_fragment-keeps :
      (es : List Entry) (i n now_s : ℕ) (beat : Bool) (w : World L)
      → Carried w
      → Carried (send_fragment c link env es i n now_s beat w).0
  send_fragment-keeps es i n now_s beat w v =
      rw (send_fragment-Fragment c link env es i n now_s beat w).2 (inr v)

  send_fragments-keeps :
      (room n rounds i : ℕ) (left : List Entry) (w : World L)
      → Carried w
      → Carried (send_fragments c link env room n rounds i left w).0
  unfolding send_fragments
  send_fragments-keeps room n zero i left w v = v
  send_fragments-keeps room n (suc rounds) i left w v =
      let count : ℕ = if ltb room (length left) then room else length left in
      let (w', sent) = send_fragment c link env (take count left) i n env.now_s false w in
      let v' : Carried w' = send_fragment-keeps (take count left) i n env.now_s false w v in
      if-keeps (λ (x : World L × ℕ). Carried x.0) sent
        (send_fragments-keeps room n rounds (i + 1) (drop count left) w' v') v'

  -- The transport, from the state `l` on, accepts every payload of at most `size` bytes for as long
  -- as it has accepted those before.
  abbrev Accepting : ℕ → L → Type 0
  Accepting size l =
      (p : List ℕ) (l' : L)
      → Reaches link size l l'
      → length p ≤ size
      → (link.send p l').1 ≡ no_error

  -- Such a transport accepts a fragment, and is such a transport behind it.
  sent_true :
      (size : ℕ) (es : List Entry) (i n now_s : ℕ) (beat sent : Bool) (w w' : World L)
      → Accepting size w.link
      → length (packet c link env es i n now_s beat w) ≤ size
      → Fragment c link env es i n now_s beat w w' sent
      → (sent ≡ true) × Accepting size w'.link
  sent_true size es i n now_s beat sent w w' accepts small (taken good moved _ _) = (
    refl,
    λ p l' reach fits.
        accepts p l'
          (after (packet c link env es i n now_s beat w) w.link l' small good
            (subst (λ l. Reaches link size l l') moved reach))
          fits,
  )
  sent_true size es i n now_s beat sent w w' accepts small (refused bad _ _) =
      absurd (bad (accepts (packet c link env es i n now_s beat w) w.link (here w.link) small))

  send_fragments-Carried :
      (room n rounds i : ℕ) (left : List Entry) (w : World L)
      → Accepting (header_size + room * record_size) w.link
      → AllAddressed left
      → 0 < room
      → length left ≤ rounds * room
      → Any (λ e. to_record e env.now_s ≡ r) left
      → Carried (send_fragments c link env room n rounds i left w).0
  unfolding send_fragments
  send_fragments-Carried room n zero i [] w accepts addressed some_room enough a = elim a [ ]
  send_fragments-Carried room n zero i (e ∷ left) w accepts addressed some_room enough a =
      absurd (omega arith)
  send_fragments-Carried room n (suc rounds) i left w accepts addressed some_room enough a =
      let count : ℕ = if ltb room (length left) then room else length left in
      let (w', sent) = send_fragment c link env (take count left) i n env.now_s false w in
      let (fragment, _, offered) =
        send_fragment-Fragment c link env (take count left) i n env.now_s false w in
      elim (Any-split (λ e. to_record e env.now_s ≡ r) count left a) [
        | inl now ↦
            let v' : Carried w' =
              rw offered (inl (packet-Carries (take count left) i n env.now_s false w now)) in
            if-keeps (λ (x : World L × ℕ). Carried x.0) sent
              (send_fragments-keeps room n rounds (i + 1) (drop count left) w' v') v'
        | inr later ↦
            let small : length (packet c link env (take count left) i n env.now_s false w)
                ≤ header_size + room * record_size =
              ground (
                arith,
                length-take count left,
                length-packet c link env (take count left) i n env.now_s false w
                    (AllAddressed-take count left addressed),
              ) in
            let (kept, accepts') =
              sent_true (header_size + room * record_size) (take count left) i n env.now_s false
                sent w w' accepts small fragment in
            let d : suc rounds * room ≡ room + rounds * room = omega arith in
            let fits : length (drop count left) ≤ rounds * room =
              ground (arith, length-drop count left) in
            rw kept (
              send_fragments-Carried room n rounds (i + 1) (drop count left) w' accepts'
                (AllAddressed-drop count left addressed) some_room fits later)
      ]

  send_records-Carried :
      (room : ℕ) (es : List Entry) (w : World L)
      → Accepting (header_size + room * record_size) w.link
      → AllAddressed es
      → 0 < room
      → fragments_needed (length es) room ≤ link.get_max_uplinks_per_dispatch w.link
      → link.get_max_uplinks_per_dispatch w.link < 2 ^ 8
      → Any (λ e. to_record e env.now_s ≡ r) es
      → Carried (send_records c link env room es w)
  unfolding send_records
  send_records-Carried room es w accepts addressed some_room fits small a =
      let needed = fragments_needed (length es) room in
      let max_uplinks = link.get_max_uplinks_per_dispatch w.link in
      let count : ℕ = (if ltb max_uplinks needed then max_uplinks else needed) % 2 ^ 8 in
      let all : count ≡ needed = ground arith in
      let (w', sent) = send_fragments c link env room count count 0 es (next_sequence w) in
      let enough : length es ≤ needed * room = omega arith in
      let v' : Carried w' =
        send_fragments-Carried room count count 0 es (next_sequence w) accepts addressed some_room
          (rw all enough) a in
      if-keeps Carried (ltb 0 sent) v' v'

  send_snapshot-Carried :
      (room : ℕ) (es : List Entry) (w : World L)
      → Accepting (header_size + room * record_size) w.link
      → AllAddressed es
      → 0 < room
      → fragments_needed (length es) room ≤ link.get_max_uplinks_per_dispatch w.link
      → link.get_max_uplinks_per_dispatch w.link < 2 ^ 8
      → Any (λ e. to_record e env.now_s ≡ r) es
      → Carried (send_snapshot c link env room es w)
  unfolding send_snapshot
  send_snapshot-Carried room [] w accepts addressed some_room fits small a = elim a [ ]
  send_snapshot-Carried room (e ∷ es) w accepts addressed some_room fits small a =
      send_records-Carried room (e ∷ es) w accepts addressed some_room fits small a

  -- Past the guards, a dispatch is the sending of its snapshot.
  dispatch-pending :
      (w : World L)
      → Ready c link env w
      → Smooth c link env w
      → dispatch c link env w
        ≡ send_snapshot c link env (room_for c link env w) (pending c link env w) w
  unfolding dispatch
  dispatch-pending w ready s =
      let small : room_for c link env w % 2 ^ 8 ≡ room_for c link env w =
        let h = ready.available in omega arith in
      let on = s.joined in
      let useful : leb (link.get_max_payload_size w.link) header_size ≡ false =
        let h = s.rate in ground arith in
      let free : leb (link.get_available_payload_size w.link) header_size ≡ false =
        let h = s.size in ground arith in
      let some_room : (room_for c link env w == 0) ≡ false = let h = s.size in ground arith in
      simp (on, useful, free, small, some_room, dispatch) refl

  lookup-Any :
      (es : List Entry) (a : List ℕ) (e : Entry) (now_s : ℕ)
      → lookup es a ≡ some e
      → to_record e now_s ≡ r
      → is_reportable c env.snapshot_s e ≡ true
      → Any (λ x. (to_record x now_s ≡ r) × (is_reportable c env.snapshot_s x ≡ true)) es
  lookup-Any [] a e now_s h same due = absurd (ground arith)
  lookup-Any (x ∷ es) a e now_s h same due = elim (Bool-cases (holds x a)) [
    | inl found ↦
        let it : x ≡ e = ground arith in
        inl (
          subst (λ y. (to_record y now_s ≡ r) × (is_reportable c env.snapshot_s y ≡ true)) (sym it)
            (same, due))
    | inr other ↦ inr (lookup-Any es a e now_s (ground arith) same due)
  ]

module _ {L : Type 0} (c : Config) (link : Link L) (env : Env) where
  -- Under `Ready` and the invariant of the table: when the transport is joined, has room for a
  -- record, allows the uplinks that the pending devices need and accepts every payload of the
  -- announced size in each state that its accepted sends lead to, and no report arrives meanwhile,
  -- then for every device that is reportable at the time of the snapshot, some
  -- payload that the dispatch leaves in the history carries its record.
  pub dispatch-Carried :
      (w : World L) (a : List ℕ) (e : Entry)
      → Ready c link env w
      → Smooth c link env w
      → Inv c w.table
      → lookup w.table.entries a ≡ some e
      → is_reportable c env.snapshot_s e ≡ true
      → Any (Carries (to_record e env.now_s)) (dispatch c link env w).offered
  dispatch-Carried w a e ready s v h due =
      let r = to_record e env.now_s in
      let some_room : 0 < room_for c link env w = let k = s.size in omega arith in
      let here : Any (λ x. to_record x env.now_s ≡ r) (pending c link env w) =
        rw (snapshot-eq-reportable c w.table env.snapshot_s v) (
          Any-select (λ x. to_record x env.now_s ≡ r) (is_reportable c env.snapshot_s)
            w.table.entries (lookup-Any c link env r w.table.entries a e env.now_s h refl due)) in
      rw (dispatch-pending c link env r w ready s) (
        send_snapshot-Carried c link env r (room_for c link env w) (pending c link env w) w
          (λ p l reach fits.
            let room : header_size + room_for c link env w * record_size
                ≤ link.get_available_payload_size w.link =
              let k = s.size in omega arith in
            s.accepts p l
              (Reaches-le link (header_size + room_for c link env w * record_size)
                (link.get_available_payload_size w.link) w.link l room reach)
              (omega (arith, fits, room)))
          (AllAddressed-snapshot c link env w ready.addressed) some_room s.uplinks ready.uplinks
          here)
