-- ===== src/Consumer/Routing.antt =====
-- The keys under which an event is applied (classify of eventing/consume/consumer.go).
use seta_im_intern.Prelude.{
  ℕ, ◌≡◌, ◌↔◌, refl, true, false, Option, none, some, List, [], ◌∷◌, ◌==◌, length, if◌then◌else◌,
  Bool-cases, inl, inr, ◌⊎◌, arith, IsAmong,
}
use seta_im_intern.Consumer.Parse.{Decoder, Parsed, contains}
use seta_im_intern.Consumer.Deliver.{
  Delivery, ConsumerOptions, routable, uuid_or_none, classify, classify_key,
}

contains-IsAmong : (xs : List ℕ) (n : ℕ) → (contains xs n ≡ true) ↔ IsAmong n xs
contains-IsAmong [] n = ((λ h. cc), (λ h. elim h [ ]))
contains-IsAmong (x ∷ xs) n =
    let rest = contains-IsAmong xs n in
    elim (Bool-cases (x == n)) [
      | inl same ↦ rw same ((λ h. inl (ground arith)), (λ h. refl))
      | inr other ↦ rw other (
        (λ h. inr (rest.0 h)),
        (λ h. elim h [ inl same ↦ absurd (ground arith) | inr later ↦ rest.1 later ]),
      )
    ]

module _ (options : ConsumerOptions) where
  -- The consumer names no types, or this one among them.
  abbrev pub IsRoutable : ℕ → Type 0
  IsRoutable event_type = (options.routable_types ≡ []) ⊎ IsAmong event_type options.routable_types

  routable-IsRoutable : (t : ℕ) → (routable options t ≡ true) ↔ IsRoutable t
  unfolding routable
  routable-IsRoutable t =
      elim options.routable_types
        as (λ types.
          ((elim types [ [] ↦ true | x ∷ xs ↦ contains (x ∷ xs) t ]) ≡ true)
          ↔ ((types ≡ []) ⊎ IsAmong t types)) [
            | [] ↦ ((λ h. inl refl), (λ h. refl))
            | x ∷ xs ↦
                let among = contains-IsAmong (x ∷ xs) t in
                (
                  (λ h. inr (among.0 h)),
                  (λ h. elim h [
                    | inl none_named ↦ absurd (ground arith)
                    | inr here ↦ among.1 here
                  ]),
                )
          ]

module _ (decoder : Decoder) (digest : List ℕ → List ℕ) (options : ConsumerOptions) (r : Delivery)
    (p : Parsed) where
  -- The named field of the record's value is a UUID, which is the record's key.
  pub record IsKeyedBy (field : ℕ) : Type 0 where
    pub has_value : (length p.raw == 0) ≡ false
    pub is_field : decoder.decode_field p.raw field ≡ some r.key
    pub is_uuid : decoder.codec.is_uuid r.key ≡ true

  -- The event's type is one that the consumer takes, and the record's key is its aggregate, where the
  -- consumer names a field for it.
  abbrev pub IsRouted : Type 0
  IsRouted =
      IsRoutable options p.envelope.event_type
      × ((options.aggregate_field ≡ 0) ⊎ IsKeyedBy options.aggregate_field)

  -- The aggregate, where the consumer names a field.
  abbrev field_id : Option ℕ
  field_id =
      if length p.raw == 0
      then none
      else uuid_or_none decoder digest options (decoder.decode_field p.raw options.aggregate_field)

  uuid_or_none-some :
      (field : Option ℕ)
      → (uuid_or_none decoder digest options field ≡ some r.key)
        ↔ ((field ≡ some r.key) × (decoder.codec.is_uuid r.key ≡ true))
  uuid_or_none-some none = ((λ h. ground arith), (λ h. ground arith))
  uuid_or_none-some (some id) = elim (Bool-cases (decoder.codec.is_uuid id)) [
    | inl uuid ↦
        rw uuid ((λ h. let q : id ≡ r.key = ground arith in (h, rw (← q) uuid)), (λ h. h.0))
    | inr other ↦ rw other (
      (λ h. ground arith),
      (λ h. let q : id ≡ r.key = ground arith in let u = rw (← q) at h.1 in cc),
    )
  ]

  field_id-IsKeyedBy : (field_id ≡ some r.key) ↔ IsKeyedBy options.aggregate_field
  field_id-IsKeyedBy =
      let uuid = uuid_or_none-some (decoder.decode_field p.raw options.aggregate_field) in
      elim (Bool-cases (length p.raw == 0)) [
        | inl empty ↦ rw empty ((λ h. ground arith), (λ h. let e = h.has_value in cc))
        | inr full ↦ rw full (
          (λ h. record { has_value = full; is_field = (uuid.0 h).0; is_uuid = (uuid.0 h).1 }),
          (λ h. uuid.1 (h.is_field, h.is_uuid)),
        )
      ]

  classify_key-none :
      (id : Option ℕ) → (classify_key decoder digest options r.key id ≡ none) ↔ (id ≡ some r.key)
  classify_key-none none = ((λ h. ground arith), (λ h. ground arith))
  classify_key-none (some id) = ((λ h. ground arith), (λ h. ground arith))

  -- An event is not refused exactly when the consumer names no types or this event's among them, and,
  -- where the consumer names a field for the aggregate, that field of the value is a UUID that is the
  -- record's key.
  pub classify-IsRouted : (classify decoder digest options r p ≡ none) ↔ IsRouted
  unfolding classify
  classify-IsRouted =
      let types = routable-IsRoutable options p.envelope.event_type in
      elim (Bool-cases (routable options p.envelope.event_type)) [
        | inr other ↦ rw other ((λ h. ground arith), (λ h. let e = types.1 h.0 in cc))
        | inl here ↦ elim (Bool-cases (options.aggregate_field == 0)) [
          | inl free ↦ rw (here, free) ((λ h. (types.0 here, inl (ground arith))), (λ h. refl))
          | inr named ↦
              let key = classify_key-none field_id in
              let keyed = field_id-IsKeyedBy in
              rw (here, named)
                (
                  (λ h. (types.0 here, inr (keyed.0 (key.0 h)))),
                  (λ h. elim h.1 [
                    | inl free ↦ absurd (ground arith)
                    | inr by ↦ key.1 (keyed.1 by)
                  ]),
                )
        ]
      ]
