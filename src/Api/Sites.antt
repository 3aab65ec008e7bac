-- ===== src/Api/Sites.antt =====
-- app/internal/transport/http/handlers_misc.go.
use session_proxy.Base.{String, ◌||◌, Option, none, some, List, str_eq, if◌then◌else◌}
use session_proxy.Base.Bytes.{Bytes}
use session_proxy.Domain.{TargetSite}
use session_proxy.Store.App.{App, pure}
use session_proxy.Repo.Sessions
use session_proxy.Repo.Guests
use session_proxy.Repo.Logs
use session_proxy.Api.Reply.{
  Reply, write_json, write_error, respond_or_500, site, sites, reasons, guests,
}
use session_proxy.Api.Sessions.{is_empty}

pub record CreateTargetSiteRequest : Type 0 where
  pub base_domain : String
  pub name : String
  pub base_url : Bytes

module _ {R : Type 0} where
  unfoldable pub handle_list_target_sites : (List TargetSite → List TargetSite) → App R Reply
  handle_list_target_sites order_by_name =
      respond_or_500 (Sessions.list_sites order_by_name) (λ ss. write_json 200 (sites ss))

  unfoldable pub handle_create_target_site : Option CreateTargetSiteRequest → App R Reply
  handle_create_target_site none =
      pure (write_error 400 "base_domain, name and base_url are required")
  handle_create_target_site (some req) =
      if str_eq req.base_domain "" || str_eq req.name "" || is_empty req.base_url
      then pure (write_error 400 "base_domain, name and base_url are required")
      else respond_or_500 (Sessions.get_or_create_by_domain req.base_domain req.name req.base_url)
          (λ s. write_json 201 (site s))

  unfoldable pub handle_list_revocation_reasons : App R Reply
  handle_list_revocation_reasons =
      respond_or_500 Logs.list_reasons (λ rs. write_json 200 (reasons rs))

  unfoldable pub handle_list_guests : App R Reply
  handle_list_guests = respond_or_500 (Guests.list 200 0) (λ gs. write_json 200 (guests gs))
