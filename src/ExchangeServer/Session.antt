-- ===== src/ExchangeServer/Session.antt =====
-- A session of src/bin/exchange_server.rs, from the bytes of a client to the bytes that it is sent.
use market_sim_backend.Fixed.{Fixed}
use market_sim_backend.Exchange.State.{Exchange}
