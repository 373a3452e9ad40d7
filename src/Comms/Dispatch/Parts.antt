-- ===== src/Comms/Dispatch/Parts.antt =====
-- What the sending of a header, and of a part of a snapshot, comes to.
use base_platform_zephyr_ble.Prelude.{
  ℕ, zero, suc, ◌+◌, ◌*◌, ◌%◌, ◌^◌, ◌<◌, ◌≡◌, refl, ◌∙◌, Bool, true, false, ◌⊎◌, inl, inr, List, [],
  ◌∷◌, ◌++◌, length, map, drop, ltb, if◌then◌else◌, arith, min, Bool-cases, select,
}
use mathlib.Core.Path.{subst}
use base_platform_zephyr_ble.Config.{Config}
use base_platform_zephyr_ble.DeviceTable.{Entry}
use base_platform_zephyr_ble.DeviceTable.Delivery.{acknowledge}
use base_platform_zephyr_ble.Link.{Link}
use base_platform_zephyr_ble.Comms.{
  World, Env, header_size, record_size, send_fragment, next_sequence, boot_sent, send_header,
  send_fragments, fragments_needed, send_records, header_bytes, header_of, records_bytes,
}
use base_platform_zephyr_ble.Comms.Wire.{AllAddressed}
use base_platform_zephyr_ble.Comms.Fragments.{
  packet, length-packet, Same, Fragment, taken, refused, send_fragment-Fragment, AllWithin,
}
use base_platform_zephyr_ble.Comms.Fragments.Loop.{Ending, Progress, send_fragments-Progress}
use base_platform_zephyr_ble.Comms.Fragments.Reach.{chunks, here, Refuses, Accepts}

pub AllAddressed-select :
    (p : Entry → Bool) (es : List Entry) → AllAddressed es → AllAddressed (select p es)
AllAddressed-select p [] a = tt
AllAddressed-select p (e ∷ es) a = elim (Bool-cases (p e)) [
  | inl h ↦ simp h (a.0, AllAddressed-select p es a.1)
  | inr h ↦ simp h (AllAddressed-select p es a.1)
]

module _ {L : Type 0} (c : Config) (link : Link L) (env : Env) where
  -- A header went out alone, under the next sequence number.
  pub record HeaderOnly (w w' : World L) : Type 0 where
    pub payload : List ℕ
    pub offered : w'.offered ≡ payload ∷ w.offered
    pub size : length payload ≡ header_size
    pub heading : payload ≡ header_bytes (header_of c link env 0 0 1 true (next_sequence w)) ++ []
    pub sequence : w'.comms.sequence ≡ (w.comms.sequence + 1) % 2 ^ 16
    pub table : w'.table ≡ env.meanwhile 0 w.table
    pub boot :
        (Accepts link × (w'.comms.boot_uplink_sent ≡ true))
        ⊎ (Refuses link header_size w.link × (w'.comms.boot_uplink_sent ≡ w.comms.boot_uplink_sent))

  -- A part of a snapshot went out: `k` fragments were accepted, of at most `allowed`.
  pub record Sent (per allowed : ℕ) (entries : List Entry) (w w' : World L) : Type 0 where
    pub k : ℕ
    pub payloads : List (List ℕ)
    pub offered : w'.offered ≡ payloads ++ w.offered
    pub sized : AllWithin (header_size + per * record_size) payloads
    pub bodies : map (drop header_size) payloads ≡ chunks (length payloads) per entries env.now_s
    pub ended : Ending c link env per allowed 0 k entries (length payloads) w w'
    pub begun : (k ≡ 0) ⊎ Accepts link
    pub sequence : w'.comms.sequence ≡ (w.comms.sequence + 1) % 2 ^ 16
    pub boot : w'.comms.boot_uplink_sent ≡ (if ltb 0 k then true else w.comms.boot_uplink_sent)

  header_answer :
      (now_s : ℕ) (w w' : World L) (sent : Bool)
      → Fragment c link env [] 0 1 now_s true (next_sequence w) w' sent
        × Same (next_sequence w) w'
        × (w'.offered ≡ packet c link env [] 0 1 now_s true (next_sequence w) ∷ w.offered)
      → HeaderOnly w (if sent then boot_sent w' else w')
  unfolding acknowledge records_bytes
  header_answer now_s w w' true (taken good moved table last, same, offered) = record {
    payload = packet c link env [] 0 1 now_s true (next_sequence w);
    offered = offered;
    size = length-packet c link env [] 0 1 now_s true (next_sequence w) tt;
    heading = refl;
    sequence = same.sequence;
    table = table;
    boot = inl ((packet c link env [] 0 1 now_s true (next_sequence w), w.link, good), refl);
  }
  header_answer now_s w w' false (refused bad table last, same, offered) = record {
    payload = packet c link env [] 0 1 now_s true (next_sequence w);
    offered = offered;
    size = length-packet c link env [] 0 1 now_s true (next_sequence w) tt;
    heading = refl;
    sequence = same.sequence;
    table = table;
    boot = inr (
      (
        packet c link env [] 0 1 now_s true (next_sequence w),
        w.link,
        omega (arith, length-packet c link env [] 0 1 now_s true (next_sequence w) tt),
        here w.link,
        bad,
      ),
      same.boot,
    );
  }

  pub send_header-HeaderOnly :
      (now_s : ℕ) (w : World L) → HeaderOnly w (send_header c link env now_s w)
  unfolding send_header
  send_header-HeaderOnly now_s w =
      let (w', sent) = send_fragment c link env [] 0 1 now_s true (next_sequence w) in
      header_answer now_s w w' sent
        (send_fragment-Fragment c link env [] 0 1 now_s true (next_sequence w))

  ltb-min : (k per n sent : ℕ) → 0 < per → 0 < n → sent ≡ min (k * per) n → ltb 0 k ≡ ltb 0 sent
  ltb-min zero per n sent room some e = let d : sent ≡ 0 = omega arith in rw d refl
  ltb-min (suc k) per n sent room some e =
      let d : suc k * per ≡ per + k * per = omega arith in
      let p : 0 < sent = omega arith in ground arith

  records_answer :
      (per count allowed : ℕ) (entries : List Entry) (w w' : World L) (sent : ℕ)
      → count ≡ allowed
      → 0 < per
      → 0 < length entries
      → Progress c link env per count 0 entries (next_sequence w) w' sent
      → Sent per allowed entries w (if ltb 0 sent then boot_sent w' else w')
  records_answer per count allowed entries w w' sent e room some p =
      elim (Bool-cases (ltb 0 sent)) [
        | inl h ↦ rw h (answer (boot_sent w') refl refl refl (rw (marked, h)))
        | inr h ↦ rw h (answer w' refl refl refl (rw (marked, h) p.same.boot))
      ]
    where
      marked : ltb 0 p.k ≡ ltb 0 sent
      marked = ltb-min p.k per (length entries) sent room some p.count

      answer :
          (w'' : World L)
          → w''.table ≡ w'.table
          → w''.offered ≡ w'.offered
          → w''.comms.sequence ≡ w'.comms.sequence
          → w''.comms.boot_uplink_sent ≡ (if ltb 0 p.k then true else w.comms.boot_uplink_sent)
          → Sent per allowed entries w w''
      answer w'' t o s b = record {
        k = p.k;
        payloads = p.payloads;
        offered = o ∙ p.offered;
        sized = p.sized;
        bodies = p.bodies;
        ended =
            subst (λ n. Ending c link env per n 0 p.k entries (length p.payloads) w w'') e
              (elim p.ended [
                | inl (all, number, told) ↦ inl (all, number, t ∙ told)
                | inr (part, number, told, bad) ↦ inr (part, number, t ∙ told, bad)
              ]);
        begun = p.begun;
        sequence = s ∙ p.same.sequence;
        boot = b;
      }

  pub send_records-Sent :
      (per : ℕ) (entries : List Entry) (w : World L)
      → AllAddressed entries
      → 0 < per
      → 0 < length entries
      → link.get_max_uplinks_per_dispatch w.link < 2 ^ 8
      → Sent per
          (min (link.get_max_uplinks_per_dispatch w.link) (fragments_needed (length entries) per))
          entries
          w
          (send_records c link env per entries w)
  unfolding send_records
  send_records-Sent per entries w a room some small =
      let max_uplinks = link.get_max_uplinks_per_dispatch w.link in
      let needed = fragments_needed (length entries) per in
      let allowed = if ltb max_uplinks needed then max_uplinks else needed in
      let count = allowed % 2 ^ 8 in
      let (w', sent) = send_fragments c link env per count count 0 entries (next_sequence w) in
      records_answer per count (min max_uplinks needed) entries w w' sent (ground arith) room some
        (send_fragments-Progress c link env per count count 0 entries (next_sequence w) a)
