-- ===== src/Coordinator/Sends.antt =====
-- crates/coordinator/src/main.rs: what a write to the client's sink does.
use multinode_controller.Base.{ℕ, zero, suc, ◌-◌, ◌<◌, ◌≡◌, refl, ◌∷◌, [], ◌++◌, arith}
use multinode_controller.Protocol.{ClientResponse}
use multinode_controller.Coordinator.State.{Served, ok, send, write}

abbrev pub after_send : ClientResponse → Served → Served
after_send r c = record c {
  sink = record { written = c.sink.written ++ r ∷ []; room = c.sink.room - 1 };
}

write-app : (r : ClientResponse) (n : ℕ) (c : Served) → (write r n c).1.app ≡ c.app
unfolding write
write-app r zero c = refl
write-app r (suc n) c = refl

pub send-app : (r : ClientResponse) (c : Served) → (send r c).1.app ≡ c.app
unfolding send
send-app r c = write-app r c.sink.room c

write_open :
    (r : ClientResponse) (n : ℕ) (c : Served)
    → n ≡ c.sink.room
    → 0 < n
    → write r n c ≡ (ok tt, after_send r c)
unfolding write
write_open r zero c e h = absurd (omega arith)
write_open r (suc n) c e h = ground arith

-- A socket that takes more takes the response.
pub send_open :
    (r : ClientResponse) (c : Served) → 0 < c.sink.room → send r c ≡ (ok tt, after_send r c)
unfolding send
send_open r c h = write_open r c.sink.room c refl h
