-- ===== src/Proxy/Serve/Gate.antt =====
-- What a request that reaches the target site carries, and what its answer shows the guest.
use session_proxy.Base.{ℕ, ◌≡◌, Bool, Option}
use session_proxy.Base.Bytes.{Bytes}
use session_proxy.Domain.{LinkWithSession}
use session_proxy.Store.Db.{Db}
use session_proxy.Store.Redis.{Redis}
use session_proxy.Store.App.{World, ok}
use session_proxy.Store.Ensures.{Ensures}
use session_proxy.Repo.Links.{select_by_token}
use session_proxy.Repo.Links
use session_proxy.Proxy.Handler.{Exchange, Request, Outgoing, Url}
use session_proxy.Proxy.Serve.Plan.{Holding}

module _ (rd : Redis) (regexp_match : Bytes → Bytes → Option Bool) (decrypt : Bytes → Option Bytes)
    (parse_url : Bytes → Option Url) (exchange : Outgoing → Exchange) (elapsed : ℕ)
    (r : Request) where
  module _ (d : Db) (t : ℕ) where
    -- The link that the token names in these tables.
    abbrev Found : Bytes → LinkWithSession → World rd.Store → Type 0
    Found token l w = ((select_by_token token t d).0 ≡ ok l) × ((w.now ≡ t) × Holding d w)
