-- ===== src/TcpServer/Start.antt =====
-- `start`, on every way out.
use camera_controller.Base.{◌≡◌, refl, sym, ap, ◌&&◌, Bool, false, not, Bool-cases, inl, inr}
use camera_controller.Base.Int.{pos, negsuc, ltb_ℤ, eqb_ℤ}
use camera_controller.TcpServer.{TcpServer, Sockets, start}

module _ {S W : Type 0} (os : Sockets W) (t : TcpServer S W) where
  -- Each of the four socket calls, made in this order, succeeds.
  unfoldable pub calls_succeed : Bool
  calls_succeed =
      let (sck, w₁) = os.socket t.world in
      let (set, w₂) = os.setsockopt sck w₁ in
      let (bound, w₃) = os.bind sck t.port w₂ in
      let (listening, w₄) = os.listen sck w₃ in
      not (ltb_ℤ sck (pos 0))
      && not (eqb_ℤ set (negsuc 0))
      && eqb_ℤ bound (pos 0)
      && eqb_ℤ listening (pos 0)

  -- True is returned exactly if the calls succeed, and exactly then the threads run; no other member
  -- than the server's socket is new: the ring, the decoder, the client and the port are as before.
  pub record Started (r : Bool × TcpServer S W) : Type 0 where
    pub returned : r.0 ≡ calls_succeed
    pub running : r.1.threads ≡ r.0
    pub members :
        r.1 ≡ record t { sck_server = (os.socket t.world).0; threads = r.0; world = r.1.world }

  fails :
      t.threads ≡ false
      → calls_succeed ≡ false
      → (w : W) → Started (false, record t { sck_server = (os.socket t.world).0; world = w })
  fails h failed w = record { returned = sym failed; running = h; members = ap with_threads h }
    where
      with_threads : Bool → TcpServer S W
      with_threads b = record t { sck_server = (os.socket t.world).0; threads = b; world = w }

  -- `start` of a server with no threads returns true exactly if each of `socket`, `setsockopt`,
  -- `bind` and `listen` succeeds; exactly then its threads run; and whichever fails, it changes no
  -- other member than the server's socket.
  pub start-Started : t.threads ≡ false → Started (start os t)
  unfolding start calls_succeed
  start-Started h =
      let (sck, w₁) = os.socket t.world in
      let (set, w₂) = os.setsockopt sck w₁ in
      let (bound, w₃) = os.bind sck t.port w₂ in
      let (listening, w₄) = os.listen sck w₃ in
      elim (Bool-cases (ltb_ℤ sck (pos 0))) [
        | inl a ↦ rw (a, start) (fails h (rw a) w₁)
        | inr a ↦ elim (Bool-cases (eqb_ℤ set (negsuc 0))) [
          | inl b ↦ rw (a, b, start) (fails h (rw (a, b)) w₂)
          | inr b ↦ elim (Bool-cases (eqb_ℤ bound (pos 0))) [
            | inr c ↦ rw (a, b, c, start) (fails h (rw (a, b, c)) w₃)
            | inl c ↦ elim (Bool-cases (eqb_ℤ listening (pos 0))) [
              | inr d ↦ rw (a, b, c, d, start) (fails h (rw (a, b, c, d)) w₄)
              | inl d ↦
                  rw (a, b, c, d, start)
                    (record { returned = rw (a, b, c, d); running = refl; members = refl })
            ]
          ]
        ]
      ]
