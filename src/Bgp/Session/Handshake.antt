-- ===== src/Bgp/Session/Handshake.antt =====
-- What a handshake that ends in the established state has agreed on.
use wdbgp.Prelude.{
  List, Option, some, [], ◌∷◌, ◌++◌, ap, sym, true, false, ◌≡◌, ℕ, refl, Bool, none, arith,
  Bool-cases, if◌then◌else◌, ltb, inr, ◌∙◌, inl, false,
}
use mathlib.Core.Option.{some-injective}
use wdbgp.Bgp.Wire.Types.{
  Message, OpenMessage, open_message, keepalive, update, notification, route_refresh,
}
use wdbgp.Bgp.Session.{
  SpeakerConfig, ReadResult, got, timed_out, end_of_file, broken, Session, local_hold, negotiated,
  passive_hold, accepts_active, accepts_passive, our_open, check_keepalive, confirm_active,
  open_active, handshake_active, handshake_passive,
}

check_keepalive-hold_time :
    (read : ReadResult) (s : Session) → (check_keepalive read s).1.hold_time ≡ s.hold_time
check_keepalive-hold_time (got keepalive) s = refl
check_keepalive-hold_time (got (open_message o)) s = refl
check_keepalive-hold_time (got (update u)) s = refl
check_keepalive-hold_time (got (notification n)) s = refl
check_keepalive-hold_time (got (route_refresh r)) s = refl
check_keepalive-hold_time timed_out s = refl
check_keepalive-hold_time end_of_file s = refl
check_keepalive-hold_time broken s = refl

active-hold_time :
    (spk : SpeakerConfig) (asn : ℕ) (writes_open writes : Bool) (o : OpenMessage)
    (second : ReadResult) (s : Session)
    → (handshake_active spk asn writes_open writes (got (open_message o)) second s).0 ≡ none
    → (handshake_active spk asn writes_open writes (got (open_message o)) second s).1.hold_time
      ≡ negotiated (local_hold spk) o.hold_time
unfolding handshake_active open_active confirm_active
active-hold_time spk asn false writes o second s h = absurd (ground (arith, h))
active-hold_time spk asn true writes o second s h = elim (Bool-cases (accepts_active asn o)) [
  | inr e ↦ absurd (ground (arith, h, e))
  | inl e ↦ rw e (elim (Bool-cases writes) [
    | inl w ↦ rw w (check_keepalive-hold_time second _)
    | inr w ↦ rw w refl
  ])
]

passive-hold_time :
    (spk : SpeakerConfig) (asn : ℕ) (writes_open writes : Bool) (o : OpenMessage)
    (read : ReadResult) (s : Session)
    → (handshake_passive spk asn writes_open writes o read s).0 ≡ none
    → (handshake_passive spk asn writes_open writes o read s).1.hold_time
      ≡ negotiated (local_hold spk) o.hold_time
unfolding handshake_passive
passive-hold_time spk asn writes_open writes o read s h =
    elim (Bool-cases (accepts_passive asn o)) [
      | inr e ↦ absurd (ground (arith, h, e))
      | inl e ↦ rw e (elim (Bool-cases writes_open) [
        | inr w ↦ absurd (ground (arith, h, e, w))
        | inl w ↦ rw w (elim (Bool-cases writes) [
          | inl k ↦ rw k (check_keepalive-hold_time read _)
          | inr k ↦ rw k refl
        ])
      ])
    ]

-- The hold time of the first OPEN among the messages that were written.
abbrev pub written_hold : List Message → Option ℕ
written_hold [] = none
written_hold (open_message o ∷ ms) = some o.hold_time
written_hold (_ ∷ ms) = written_hold ms

check_keepalive-written :
    (read : ReadResult) (s : Session)
    → (check_keepalive read s).0 ≡ none
    → (check_keepalive read s).1.written ≡ s.written
check_keepalive-written (got keepalive) s h = refl
check_keepalive-written (got (open_message o)) s h = absurd (ground (arith, h))
check_keepalive-written (got (update u)) s h = absurd (ground (arith, h))
check_keepalive-written (got (notification n)) s h = absurd (ground (arith, h))
check_keepalive-written (got (route_refresh r)) s h = absurd (ground (arith, h))
check_keepalive-written timed_out s h = absurd (ground (arith, h))
check_keepalive-written end_of_file s h = absurd (ground (arith, h))
check_keepalive-written broken s h = absurd (ground (arith, h))

opened_then_alive :
    (written : List Message) (o : OpenMessage)
    → written ≡ []
    → written_hold ((written ++ open_message o ∷ []) ++ keepalive ∷ []) ≡ some o.hold_time
opened_then_alive written o new =
    ap (λ (ms : List Message). written_hold ((ms ++ open_message o ∷ []) ++ keepalive ∷ [])) new

active-written :
    (spk : SpeakerConfig) (asn : ℕ) (writes_open writes : Bool) (o : OpenMessage)
    (second : ReadResult) (s : Session)
    → s.written ≡ []
    → (handshake_active spk asn writes_open writes (got (open_message o)) second s).0 ≡ none
    → written_hold
        (handshake_active spk asn writes_open writes (got (open_message o)) second s).1.written
      ≡ some (local_hold spk)
unfolding handshake_active open_active confirm_active
active-written spk asn false writes o second s new h = absurd (ground (arith, h))
active-written spk asn true writes o second s new h = elim (Bool-cases (accepts_active asn o)) [
  | inr e ↦ absurd (ground (arith, h, e))
  | inl e ↦ elim (Bool-cases writes) [
    | inr w ↦ absurd (ground (arith, h, e, w))
    | inl w ↦
        rw (e, w)
          (ap written_hold (check_keepalive-written second _ (ground (arith, h, e, w)))
            ∙ opened_then_alive s.written (our_open spk (local_hold spk)) new)
  ]
]

passive-written :
    (spk : SpeakerConfig) (asn : ℕ) (writes_open writes : Bool) (o : OpenMessage)
    (read : ReadResult) (s : Session)
    → s.written ≡ []
    → (handshake_passive spk asn writes_open writes o read s).0 ≡ none
    → written_hold (handshake_passive spk asn writes_open writes o read s).1.written
      ≡ some (passive_hold (local_hold spk) o.hold_time)
unfolding handshake_passive
passive-written spk asn writes_open writes o read s new h =
    elim (Bool-cases (accepts_passive asn o)) [
      | inr e ↦ absurd (ground (arith, h, e))
      | inl e ↦ elim (Bool-cases writes_open) [
        | inr w ↦ absurd (ground (arith, h, e, w))
        | inl w ↦ elim (Bool-cases writes) [
          | inr k ↦ absurd (ground (arith, h, e, w, k))
          | inl k ↦
              rw (e, w, k)
                (ap written_hold (check_keepalive-written read _ (ground (arith, h, e, w, k)))
                  ∙ opened_then_alive s.written
                      (our_open spk (passive_hold (local_hold spk) o.hold_time)) new)
        ]
      ]
    ]

-- When both sides of a session, of which neither has written anything before, get through their
-- handshakes, and each reads an OPEN with the hold time of the OPEN that the other one has written,
-- they have the same hold time: the smaller one of their own, where 90 seconds stand for none.
pub hold_time-agree :
    (a p : SpeakerConfig) (asn_a asn_p : ℕ) (open_a keep_a open_p keep_p : Bool)
    (to_a to_p : OpenMessage) (read_a read_p : ReadResult) (s_a s_p : Session)
    → s_a.written ≡ []
    → s_p.written ≡ []
    → (handshake_active a asn_a open_a keep_a (got (open_message to_a)) read_a s_a).0 ≡ none
    → (handshake_passive p asn_p open_p keep_p to_p read_p s_p).0 ≡ none
    → written_hold
        (handshake_active a asn_a open_a keep_a (got (open_message to_a)) read_a s_a).1.written
      ≡ some to_p.hold_time
    → written_hold (handshake_passive p asn_p open_p keep_p to_p read_p s_p).1.written
      ≡ some to_a.hold_time
    → ((handshake_active a asn_a open_a keep_a (got (open_message to_a)) read_a s_a).1.hold_time
        ≡ (if ltb (local_hold a) (local_hold p) then local_hold a else local_hold p))
      × ((handshake_passive p asn_p open_p keep_p to_p read_p s_p).1.hold_time
          ≡ (if ltb (local_hold a) (local_hold p) then local_hold a else local_hold p))
hold_time-agree a p asn_a asn_p open_a keep_a open_p keep_p to_a to_p read_a read_p s_a s_p new_a
      new_p up_a up_p reads_p reads_a =
    let sent_a : to_p.hold_time ≡ local_hold a =
      some-injective to_p.hold_time (local_hold a)
        (sym reads_p ∙ active-written a asn_a open_a keep_a to_a read_a s_a new_a up_a) in
    let sent_p : to_a.hold_time ≡ passive_hold (local_hold p) to_p.hold_time =
      some-injective to_a.hold_time (passive_hold (local_hold p) to_p.hold_time)
        (sym reads_a ∙ passive-written p asn_p open_p keep_p to_p read_p s_p new_p up_p) in
    (
      active-hold_time a asn_a open_a keep_a to_a read_a s_a up_a ∙ ground (arith, sent_a, sent_p),
      passive-hold_time p asn_p open_p keep_p to_p read_p s_p up_p ∙ ground (arith, sent_a),
    )
