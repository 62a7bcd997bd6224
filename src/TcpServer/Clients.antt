-- ===== src/TcpServer/Clients.antt =====
-- One client after another, as `fn_server` serves them.
use camera_controller.Base.{
  ℕ, zero, suc, ◌≡◌, refl, sym, ap, subst, ◌∙◌, Bool-cases, inl, inr, List, [], ◌++◌, if◌then◌else◌,
}
use camera_controller.Base.Int.{pos, ltb_ℤ}
use camera_controller.Message.{Message}
use camera_controller.MessageDecoder.{decode, decode_loop}
use camera_controller.MessageDecoder.Automaton.{IsValid}
use camera_controller.MessageDecoder.Split.{decode-append, decode-IsValid}
use camera_controller.MessageEncoder.Chunks.{joined}
use camera_controller.TcpServer.{TcpServer, Sockets, accept_client, server_round, server_rounds}
use camera_controller.TcpServer.Receive.{reads, decoding, serve_client-decode}

module _ {S W : Type 0} (os : Sockets W) (junk : ℕ → ℕ) (dispatch : Message → S → S)
    (fuel : ℕ) where
  -- The bytes that a round of `fn_server` reads: none where no client is accepted.
  unfoldable pub client_bytes : TcpServer S W → List ℕ
  client_bytes t =
      let t' = accept_client os t in
      if ltb_ℤ t'.sck_client (pos 0) then [] else joined (reads os t'.sck_client fuel t'.world)

  -- The bytes of all the clients of `k` rounds.
  unfoldable pub clients_bytes : ℕ → TcpServer S W → List ℕ
  clients_bytes zero t = []
  clients_bytes (suc k) t =
      let t' = server_round os junk dispatch fuel t in
      let rest = clients_bytes k t' in
      if t'.client_connected then client_bytes t else client_bytes t ++ rest

  accept_client-decoding :
      (t : TcpServer S W)
      → decoding os junk dispatch (accept_client os t) ≡ decoding os junk dispatch t
  unfolding accept_client
  accept_client-decoding t = elim (Bool-cases (ltb_ℤ (os.accept t.sck_server t.world).0 (pos 0))) [
    | inl e ↦ rw e refl
    | inr e ↦ rw e refl
  ]

  server_round-decode :
      (t : TcpServer S W)
      → IsValid t.decoder
      → decoding os junk dispatch (server_round os junk dispatch fuel t)
        ≡ decode junk dispatch t.decoder t.handled (client_bytes t)
  unfolding server_round client_bytes
  server_round-decode t v =
      let t' : TcpServer S W = accept_client os t in
      let same = accept_client-decoding t in
      elim (Bool-cases (ltb_ℤ t'.sck_client (pos 0))) [
        | inl e ↦ rw (e, server_round, client_bytes) (same ∙ nothing)
        | inr e ↦
            rw (e, server_round, client_bytes)
              (serve_client-decode os junk dispatch fuel t'
                  (subst IsValid (sym (ap (λ p. p.0) same)) v)
                ∙ ap
                    (λ p.
                      decode junk dispatch p.0 p.1 (joined (reads os t'.sck_client fuel t'.world)))
                    same)
      ]
    where
      nothing : (t.decoder, t.handled) ≡ decode junk dispatch t.decoder t.handled []
      nothing = unfold decode decode_loop in refl

  -- The bytes of the clients that `fn_server` serves one after another, in whatever pieces `read`
  -- returns them, have the effect on a valid decoder and its handler of one call of `decode` on all
  -- of them, as if one client had sent them: a frame that a client leaves unfinished is completed
  -- by the next one's bytes.
  pub server_rounds-decode :
      (k : ℕ) (t : TcpServer S W)
      → IsValid t.decoder
      → decoding os junk dispatch (server_rounds os junk dispatch fuel k t)
        ≡ decode junk dispatch t.decoder t.handled (clients_bytes k t)
  unfolding server_rounds clients_bytes server_round
  server_rounds-decode zero t v = unfold decode decode_loop in refl
  server_rounds-decode (suc k) t v =
      let bytes = client_bytes t in
      let t' : TcpServer S W = server_round os junk dispatch fuel t in
      let first = server_round-decode t v in
      let v' =
        subst IsValid (sym (ap (λ p. p.0) first))
          (decode-IsValid junk dispatch t.decoder t.handled bytes v) in
      elim (Bool-cases t'.client_connected) [
        | inl e ↦ rw (e, server_rounds, clients_bytes) first
        | inr e ↦
            rw (e, server_rounds, clients_bytes)
              (server_rounds-decode k t' v'
                ∙ ap (λ p. decode junk dispatch p.0 p.1 (clients_bytes k t')) first
                ∙ sym
                    (decode-append junk dispatch t.decoder t.handled bytes (clients_bytes k t') v))
      ]
