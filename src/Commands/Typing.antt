-- ===== src/Commands/Typing.antt =====
-- A decoded command has the class that its id stands for, which is what the handler casts it to.
use camera_controller.Base.{
  ℕ, ◌≡◌, ◌↔◌, refl, sym, ap, subst, ◌∙◌, Bool-cases, ==_iff, inl, inr, Bool, true, Option, none,
  some, ◌==◌, if◌then◌else◌, arith,
}
use camera_controller.Commands.{
  Command, plain, download_after_exposure, sequencer_setup, intervalometer_setup, JsonLib, ◌>>=◌,
  cmd_id_shutdown, cmd_id_reboot, cmd_id_functionstart, cmd_id_functionstop,
  cmd_id_camera_test_connection, cmd_id_camera_reconnect, cmd_id_function_test_capture,
  cmd_id_download_after_exposure, cmd_id_sequencersetup, cmd_id_intervalometersetup, key_cmdid,
  key_num_exposures, key_exposure_time, key_interval, key_download, uint8_at, int_at, bool_at,
  decode_empty_command, decode_setup_sequencer, decode_setup_intervalometer,
  decode_download_after_exposure, decoder_map, find_decoder, decode,
}

-- The ids of the commands with no data.
abbrev pub is_plain_id : ℕ → Bool
is_plain_id id =
    if id == cmd_id_shutdown
    then true
    else if id == cmd_id_reboot
    then true
    else if id == cmd_id_functionstart
    then true
    else if id == cmd_id_functionstop
    then true
    else if id == cmd_id_camera_test_connection
    then true
    else if id == cmd_id_camera_reconnect
    then true
    else id == cmd_id_function_test_capture

-- The class is the one that the handler's `reinterpret_cast` for this id expects.
abbrev pub IsWellTyped : Command → Type 0
IsWellTyped (plain id) = is_plain_id id ≡ true
IsWellTyped (download_after_exposure id download) = id ≡ cmd_id_download_after_exposure
IsWellTyped (sequencer_setup id n e d) = id ≡ cmd_id_sequencersetup
IsWellTyped (intervalometer_setup id n e i d) = id ≡ cmd_id_intervalometersetup

some_injective {ℓ} : {A : Type ℓ} {a b : A} → some a ≡ some b → a ≡ b
some_injective h = cc

-- A successful chain has a successful first step.
>>=-eq-some {ℓ κ} :
    {A : Type ℓ} {B : Type κ} (m : Option A) (f : A → Option B) {b : B}
    → (m >>= f) ≡ some b
    → (a : A) × (m ≡ some a) × (f a ≡ some b)
>>=-eq-some none f h = cc
>>=-eq-some (some a) f h = (a, refl, h)

module _ (lib : JsonLib) where
  open lib use {Json}

  -- The object has the command's fields, under their keys.
  abbrev pub HasFields : Json → Command → Type 0
  HasFields j (plain id) = uint8_at lib j key_cmdid ≡ some id
  HasFields j (download_after_exposure id download) =
      (uint8_at lib j key_cmdid ≡ some id) × (bool_at lib j key_download ≡ some download)
  HasFields j (sequencer_setup id n e d) =
      (uint8_at lib j key_cmdid ≡ some id)
      × (int_at lib j key_num_exposures ≡ some n)
      × (int_at lib j key_exposure_time ≡ some e)
      × (bool_at lib j key_download ≡ some d)
  HasFields j (intervalometer_setup id n e i d) =
      (uint8_at lib j key_cmdid ≡ some id)
      × (int_at lib j key_num_exposures ≡ some n)
      × (int_at lib j key_exposure_time ≡ some e)
      × (int_at lib j key_interval ≡ some i)
      × (bool_at lib j key_download ≡ some d)

  -- What the map holds for an id.
  find_decoder-eq :
      (id : ℕ)
      → find_decoder lib id (decoder_map lib) ≡ (
          if is_plain_id id
          then some (decode_empty_command lib)
          else if id == cmd_id_download_after_exposure
          then some (decode_download_after_exposure lib)
          else if id == cmd_id_sequencersetup
          then some (decode_setup_sequencer lib)
          else if id == cmd_id_intervalometersetup
          then some (decode_setup_intervalometer lib)
          else none)
  unfolding find_decoder decoder_map
  find_decoder-eq id = ground arith

  abbrev IsRead : Json → Command → Type 0
  IsRead j c = HasFields j c × IsWellTyped c

  -- What each decoder returns, when it returns something, for the ids that the map has it under.
  module _ (j : Json) (id : ℕ) (c : Command) (e : uint8_at lib j key_cmdid ≡ some id) where
    empty-some : is_plain_id id ≡ true → decode_empty_command lib j ≡ some c → IsRead j c
    unfolding decode_empty_command
    empty-some k h =
        let (id', e', r) = >>=-eq-some (uint8_at lib j key_cmdid) _ h in
        subst (IsRead j) (some_injective r)
          (e', subst (λ x. is_plain_id x ≡ true) (some_injective (sym e ∙ e')) k)

    download-some :
        id ≡ cmd_id_download_after_exposure
        → decode_download_after_exposure lib j ≡ some c
        → IsRead j c
    unfolding decode_download_after_exposure
    download-some k h =
        let (id', e', h') = >>=-eq-some (uint8_at lib j key_cmdid) _ h in
        let (d, ed, r) = >>=-eq-some (bool_at lib j key_download) _ h' in
        subst (IsRead j) (some_injective r) ((e', ed), some_injective (sym e' ∙ e) ∙ k)

    sequencer-some : id ≡ cmd_id_sequencersetup → decode_setup_sequencer lib j ≡ some c → IsRead j c
    unfolding decode_setup_sequencer
    sequencer-some k h =
        let (id', e', h₁) = >>=-eq-some (uint8_at lib j key_cmdid) _ h in
        let (n, en, h₂) = >>=-eq-some (int_at lib j key_num_exposures) _ h₁ in
        let (t, et, h₃) = >>=-eq-some (int_at lib j key_exposure_time) _ h₂ in
        let (d, ed, r) = >>=-eq-some (bool_at lib j key_download) _ h₃ in
        subst (IsRead j) (some_injective r) ((e', en, et, ed), some_injective (sym e' ∙ e) ∙ k)

    intervalometer-some :
        id ≡ cmd_id_intervalometersetup → decode_setup_intervalometer lib j ≡ some c → IsRead j c
    unfolding decode_setup_intervalometer
    intervalometer-some k h =
        let (id', e', h₁) = >>=-eq-some (uint8_at lib j key_cmdid) _ h in
        let (n, en, h₂) = >>=-eq-some (int_at lib j key_num_exposures) _ h₁ in
        let (t, et, h₃) = >>=-eq-some (int_at lib j key_exposure_time) _ h₂ in
        let (i, ei, h₄) = >>=-eq-some (int_at lib j key_interval) _ h₃ in
        let (d, ed, r) = >>=-eq-some (bool_at lib j key_download) _ h₄ in
        subst (IsRead j) (some_injective r) ((e', en, et, ei, ed), some_injective (sym e' ∙ e) ∙ k)

    -- The decoder that the map has for `id`.
    by_id : (find_decoder lib id (decoder_map lib) >>= λ decoder. decoder j) ≡ some c → IsRead j c
    by_id h = elim (Bool-cases (is_plain_id id)) [
      | inl p ↦ empty-some p (rw (find_decoder-eq id, p) at h)
      | inr q ↦ elim (Bool-cases (id == cmd_id_download_after_exposure)) [
        | inl p ↦ download-some ((==_iff _ _).0 p) (rw (find_decoder-eq id, q, p) at h)
        | inr q' ↦ elim (Bool-cases (id == cmd_id_sequencersetup)) [
          | inl p ↦ sequencer-some ((==_iff _ _).0 p) (rw (find_decoder-eq id, q, q', p) at h)
          | inr q'' ↦ elim (Bool-cases (id == cmd_id_intervalometersetup)) [
            | inl p ↦
                intervalometer-some ((==_iff _ _).0 p) (rw (find_decoder-eq id, q, q', q'', p) at h)
            | inr q₃ ↦ let h' = rw (find_decoder-eq id, q, q', q'', q₃) at h in cc
          ]
        ]
      ]
    ]

  decode-some : (j : Json) (c : Command) → decode lib j ≡ some c → IsRead j c
  unfolding decode
  decode-some j c h =
      let (id, e, h') = >>=-eq-some (uint8_at lib j key_cmdid) _ h in by_id j id c e h'

  find_plain :
      (id : ℕ)
      → is_plain_id id ≡ true
      → find_decoder lib id (decoder_map lib) ≡ some (decode_empty_command lib)
  find_plain id k = rw (find_decoder-eq id, k)

  empty_of :
      (j : Json) (id : ℕ)
      → uint8_at lib j key_cmdid ≡ some id
      → decode_empty_command lib j ≡ some (plain id)
  unfolding decode_empty_command
  empty_of j id f = rw f

  decode_of : (j : Json) (c : Command) → HasFields j c → IsWellTyped c → decode lib j ≡ some c
  unfolding decode find_decoder decoder_map decode_empty_command decode_download_after_exposure
      decode_setup_sequencer decode_setup_intervalometer
  decode_of j (plain id) f k =
      rw f (ap (λ m. m >>= λ decoder. decoder j) (find_plain id k) ∙ empty_of j id f)
  decode_of j (download_after_exposure id d) f k =
      let e : uint8_at lib j key_cmdid ≡ some cmd_id_download_after_exposure = f.0 ∙ ap some k in
      rw (k, e, e, f.1)
  decode_of j (sequencer_setup id n t d) f k =
      let e : uint8_at lib j key_cmdid ≡ some cmd_id_sequencersetup = f.0 ∙ ap some k in
      rw (k, e, e, f.1, f.2, f.3)
  decode_of j (intervalometer_setup id n t i d) f k =
      let e : uint8_at lib j key_cmdid ≡ some cmd_id_intervalometersetup = f.0 ∙ ap some k in
      rw (k, e, e, f.1, f.2, f.3, f.4)

  -- Decoding returns a command exactly when the object has that command's fields and its class is the
  -- one that its id stands for: the cast that the handler makes by the id is to the object's class.
  pub decode_iff :
      (j : Json) (c : Command) → (decode lib j ≡ some c) ↔ (HasFields j c × IsWellTyped c)
  decode_iff j c = (decode-some j c, λ r. decode_of j c r.0 r.1)
