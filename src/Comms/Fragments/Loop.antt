-- ===== src/Comms/Fragments/Loop.antt =====
-- The loop of `dispatch` over the fragments: how far it comes, and what it leaves behind.
use base_platform_zephyr_ble.Prelude.{
  ℕ, zero, suc, ◌+◌, ◌*◌, ◌<◌, ◌≡◌, refl, sym, ap, ap₂, ◌≤◌, ◌∙◌, Bool, true, false, ◌⊎◌, inl, inr,
  List, [], ◌∷◌, ◌++◌, length, length-append, length-take, length-drop, take, drop, map, ltb,
  if◌then◌else◌, arith, min,
}
use mathlib.Core.List.{append_assoc}
use mathlib.Core.Path.{subst}
use base_platform_zephyr_ble.Config.{Config}
use base_platform_zephyr_ble.DeviceTable.{Entry}
use base_platform_zephyr_ble.Link.{Link, no_error}
use base_platform_zephyr_ble.Comms.{
  World, Env, header_size, record_size, header_bytes, records_bytes, send_fragment, send_fragments,
}
use base_platform_zephyr_ble.DeviceTable.Delivery.{acknowledge}
use base_platform_zephyr_ble.Comms.Wire.{AllAddressed}
use base_platform_zephyr_ble.Comms.Fragments.Reach.{
  chunks, map-append_one, Reaches, here, after, Refuses, Accepts,
}
use base_platform_zephyr_ble.Comms.Fragments.{
  Same, packet, length-packet, Fragment, taken, refused, send_fragment-Fragment, replay, AllWithin,
  AllWithin-append, AllAddressed-take, AllAddressed-drop,
}

-- The loop's `count`.
count-eq-min : (per n : ℕ) → (if ltb per n then per else n) ≡ min per n
count-eq-min per n = ground arith

take-min : (per : ℕ) (es : List Entry) → take (min per (length es)) es ≡ take per es
take-min zero es = let d : min 0 (length es) ≡ 0 = omega arith in rw d refl
take-min (suc per) [] = let d : min (suc per) 0 ≡ 0 = omega arith in rw d refl
take-min (suc per) (e ∷ es) =
    let d : min (suc per) (length (e ∷ es)) ≡ suc (min per (length es)) = omega arith in
    rw d (ap (◌∷◌ e) (take-min per es))

drop-min : (per : ℕ) (es : List Entry) → drop (min per (length es)) es ≡ drop per es
drop-min zero es = let d : min 0 (length es) ≡ 0 = omega arith in rw d refl
drop-min (suc per) [] = let d : min (suc per) 0 ≡ 0 = omega arith in rw d refl
drop-min (suc per) (e ∷ es) =
    let d : min (suc per) (length (e ∷ es)) ≡ suc (min per (length es)) = omega arith in
    rw d (drop-min per es)

module _ {L : Type 0} (c : Config) (link : Link L) (env : Env) where
  -- All of the `rounds` fragments were accepted, or one after the first `k` was refused; `number`
  -- is that of the payloads.
  abbrev pub Ending :
      (per rounds i k : ℕ) (left : List Entry) (number : ℕ) (w w' : World L) → Type 0
  Ending per rounds i k left number w w' =
      ((k ≡ rounds) × (number ≡ rounds) × (w'.table ≡ replay c link env k per i left w.table))
      ⊎ ((k < rounds)
          × (number ≡ k + 1)
          × (w'.table ≡ env.meanwhile (i + k) (replay c link env k per i left w.table))
          × Refuses link (header_size + per * record_size) w.link)

  -- A run of the loop over at most `rounds` fragments from number `i` on, for the entries `left`:
  -- the first `k` fragments were accepted, the next one, if there was room for one, was refused.
  pub record Progress (per rounds i : ℕ) (left : List Entry) (w w' : World L) (sent : ℕ)
      : Type 0 where
    pub k : ℕ
    pub count : sent ≡ min (k * per) (length left)
    pub payloads : List (List ℕ)
    pub offered : w'.offered ≡ payloads ++ w.offered
    pub sized : AllWithin (header_size + per * record_size) payloads
    pub bodies : map (drop header_size) payloads ≡ chunks (length payloads) per left env.now_s
    pub ended : Ending per rounds i k left (length payloads) w w'
    pub begun : (k ≡ 0) ⊎ Accepts link
    pub same : Same w w'

  module _ (per n rounds i : ℕ) (left : List Entry) (w : World L) (a : AllAddressed left) where
    abbrev first : List ℕ
    first = packet c link env (take per left) i n env.now_s false w

    small : length (first) ≤ header_size + per * record_size
    small = omega (
      arith,
      length-take per left,
      length-packet c link env (take per left) i n env.now_s false w (AllAddressed-take per left a),
    )

    body : drop header_size (first) ≡ records_bytes (take per left) env.now_s
    unfolding header_bytes
    body = refl

    stop_here :
        (w' : World L)
        → Fragment c link env (take per left) i n env.now_s false w w' false
        → Same w w'
        → w'.offered ≡ first ∷ w.offered
        → Progress per (suc rounds) i left w w' 0
    stop_here w' (refused bad table last) same offered = record {
      k = 0;
      count = omega arith;
      payloads = first ∷ [];
      offered = offered;
      sized = (small, tt);
      bodies = ap (λ b. b ∷ []) body;
      ended = inr (
        omega arith,
        refl,
        table ∙ (let e : i ≡ i + 0 = omega arith in ap (λ j. env.meanwhile j w.table) e),
        (first, w.link, small, here w.link, bad),
      );
      begun = inl refl;
      same = same;
    }

    -- A fragment that is accepted, and then the rest of the loop.
    later :
        (w' w'' : World L) (k number number' : ℕ)
        → (link.send first w.link).1 ≡ no_error
        → w'.link ≡ (link.send first w.link).0
        → w'.table ≡ acknowledge (env.meanwhile i w.table) (take per left)
        → suc number ≡ number'
        → Ending per rounds (i + 1) k (drop per left) number w' w''
        → Ending per (suc rounds) i (suc k) left number' w w''
    later w' w'' k number number' good moved table next (inl (all, count, told)) = inl (
      omega (arith, all),
      omega (arith, count),
      told ∙ ap (replay c link env k per (i + 1) (drop per left)) table,
    )
    later w' w'' k number number' good moved table next
          (inr (part, count, told, (q, l', fits, reach, bad))) =
        inr (
          omega (arith, part),
          omega (arith, count),
          told
              ∙ ap
                  (λ t.
                    env.meanwhile (i + 1 + k) (replay c link env k per (i + 1) (drop per left) t))
                  table
              ∙ (let e : i + 1 + k ≡ i + suc k = omega arith in
                  ap (λ j. env.meanwhile j (replay c link env (suc k) per i left w.table)) e),
          (
            q,
            l',
            fits,
            after first w.link l' small good
                (subst (λ l. Reaches link (header_size + per * record_size) l l') moved reach),
            bad,
          ),
        )

    go_on :
        (w' w'' : World L) (more : ℕ)
        → Fragment c link env (take per left) i n env.now_s false w w' true
        → Same w w'
        → w'.offered ≡ first ∷ w.offered
        → Progress per rounds (i + 1) (drop per left) w' w'' more
        → Progress per (suc rounds) i left w w'' (min per (length left) + more)
    go_on w' w'' more (taken good moved table last) same offered p = record {
      k = suc p.k;
      count =
          let d = p.count in
          (let e : suc p.k * per ≡ per + p.k * per = omega arith in
            omega (arith, length-drop per left));
      payloads = p.payloads ++ (first ∷ []);
      offered =
          p.offered
          ∙ ap (◌++◌ p.payloads) offered
          ∙ sym (append_assoc p.payloads (first ∷ []) w.offered);
      sized =
          AllWithin-append (header_size + per * record_size) p.payloads (first ∷ []) p.sized
            (small, tt);
      bodies =
          map-append_one p.payloads (first)
          ∙ ap₂ (λ ps b. ps ++ (b ∷ [])) p.bodies body
          ∙ ap (λ m. chunks m per left env.now_s) longer;
      ended =
          later w' w'' p.k (length p.payloads) (length (p.payloads ++ (first ∷ []))) good moved
            table longer p.ended;
      begun = inr (first, w.link, good);
      same =
          let d = p.same in
          record {
            sequence = d.sequence ∙ same.sequence;
            enabled = d.enabled ∙ same.enabled;
            timer = d.timer ∙ same.timer;
            boot = d.boot ∙ same.boot;
          };
    }
      where
        longer : suc (length p.payloads) ≡ length (p.payloads ++ (first ∷ []))
        longer = omega (arith, length-append p.payloads (first ∷ []))

    step :
        (w' w'' : World L) (more : ℕ) (sent : Bool)
        → Fragment c link env (take per left) i n env.now_s false w w' sent
          × Same w w'
          × (w'.offered ≡ first ∷ w.offered)
        → Progress per rounds (i + 1) (drop per left) w' w'' more
        → let r : World L × ℕ = (if sent then (w'', min per (length left) + more) else (w', 0)) in
          Progress per (suc rounds) i left w r.0 r.1
    step w' w'' more true (f, same, offered) p = go_on w' w'' more f same offered p
    step w' w'' more false (f, same, offered) p = stop_here w' f same offered

  -- The loop over the fragments goes on for as long as the transport accepts and offers nothing
  -- after a refusal: the table is as the accepted fragments' acknowledgements leave it, and what
  -- the acquisition thread did during the refused send, the payloads are the chunks' records, the
  -- count is that of their records, and every packet is within the size of a full one, if every
  -- entry has an address of six bytes.
  pub send_fragments-Progress :
      (per n rounds i : ℕ) (left : List Entry) (w : World L)
      → AllAddressed left
      → let (w', sent) = send_fragments c link env per n rounds i left w in
        Progress per rounds i left w w' sent
  unfolding send_fragments
  send_fragments-Progress per n zero i left w a = record {
    k = 0;
    count = omega arith;
    payloads = [];
    offered = refl;
    sized = tt;
    bodies = refl;
    ended = inl (refl, refl, refl);
    begun = inl refl;
    same = record { sequence = refl; enabled = refl; timer = refl; boot = refl };
  }
  send_fragments-Progress per n (suc rounds) i left w a =
      let (w', sent) = send_fragment c link env (take per left) i n env.now_s false w in
      let (w'', more) = send_fragments c link env per n rounds (i + 1) (drop per left) w' in
      rw (count-eq-min per (length left), take-min per left, drop-min per left)
        (step per n rounds i left w a w' w'' more sent
          (send_fragment-Fragment c link env (take per left) i n env.now_s false w)
          (send_fragments-Progress per n rounds (i + 1) (drop per left) w'
            (AllAddressed-drop per left a)))
