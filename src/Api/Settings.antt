-- ===== src/Api/Settings.antt =====
-- frontend/src/lib/settings.ts: the settings of the organisation.
use netfleet.Common.{ℕ, Option, [], ◌∷◌, Bool, Text, codes}
use netfleet.Json.{Json, Fields}
use netfleet.Payload.{Optional, opt, req, nullable, call, with_json}
use netfleet.Uri.{encode_uri_component}
use netfleet.Session.Client.{Env, Method}
use netfleet.Api.{Endpoint, json_endpoint, void_endpoint, bare_endpoint, concat}

pub record SmtpSettingsUpdate : Type 0 where
  pub smtp_enabled : Optional Bool
  pub smtp_host : Optional Text
  pub smtp_port : Optional ℕ
  pub smtp_username : Optional Text
  pub smtp_password : Optional Text
  pub smtp_from_email : Optional Text
  pub smtp_from_name : Optional Text
  pub smtp_use_tls : Optional Bool
  pub smtp_use_starttls : Optional Bool

unfoldable pub smtp_settings_update_json : SmtpSettingsUpdate → Fields
smtp_settings_update_json p = opt Json.boolean "smtp_enabled" p.smtp_enabled (
    opt Json.text "smtp_host" p.smtp_host (
      opt Json.number "smtp_port" p.smtp_port (
        opt Json.text "smtp_username" p.smtp_username (
          opt Json.text "smtp_password" p.smtp_password (
            opt Json.text "smtp_from_email" p.smtp_from_email (
              opt Json.text "smtp_from_name" p.smtp_from_name (
                opt Json.boolean "smtp_use_tls" p.smtp_use_tls
                  (opt Json.boolean "smtp_use_starttls" p.smtp_use_starttls Fields.end))))))))

pub record SmsSettingsUpdate : Type 0 where
  pub sms_enabled : Optional Bool
  pub sms_provider : Optional Text
  pub sms_api_url : Optional Text
  pub sms_http_method : Optional Text
  pub sms_body_format : Optional Text
  pub sms_body_template : Optional Text
  pub sms_auth_header_name : Optional Text
  pub sms_auth_header_value_template : Optional Text
  pub sms_api_key : Optional Text
  pub sms_sender : Optional Text
  pub sms_success_status_min : Optional ℕ
  pub sms_success_status_max : Optional ℕ
  pub sms_success_body_contains : Optional Text
  pub sms_timeout_seconds : Optional ℕ

unfoldable pub sms_settings_update_json : SmsSettingsUpdate → Fields
sms_settings_update_json p = opt Json.boolean "sms_enabled" p.sms_enabled (
    opt Json.text "sms_provider" p.sms_provider (
      opt Json.text "sms_api_url" p.sms_api_url (
        opt Json.text "sms_http_method" p.sms_http_method (
          opt Json.text "sms_body_format" p.sms_body_format (
            opt Json.text "sms_body_template" p.sms_body_template (
              opt Json.text "sms_auth_header_name" p.sms_auth_header_name (
                opt Json.text "sms_auth_header_value_template" p.sms_auth_header_value_template (
                  opt Json.text "sms_api_key" p.sms_api_key (
                    opt Json.text "sms_sender" p.sms_sender (
                      opt Json.number "sms_success_status_min" p.sms_success_status_min (
                        opt Json.number "sms_success_status_max" p.sms_success_status_max (
                          opt Json.text "sms_success_body_contains" p.sms_success_body_contains (
                            opt Json.number "sms_timeout_seconds" p.sms_timeout_seconds
                              Fields.end)))))))))))))

pub record OrgInfo : Type 0 where
  pub netfleet_external_ips : Option Text

unfoldable pub org_info_json : OrgInfo → Fields
org_info_json p =
    req "netfleet_external_ips" (nullable Json.text p.netfleet_external_ips) Fields.end

pub record AuthSettingsUpdate : Type 0 where
  pub microsoft_oidc_enabled : Optional Bool
  pub microsoft_oidc_tenant_id : Optional Text
  pub microsoft_oidc_client_id : Optional Text
  pub microsoft_oidc_client_secret : Optional Text
  pub google_oidc_enabled : Optional Bool
  pub google_oidc_client_id : Optional Text
  pub google_oidc_client_secret : Optional Text
  pub mfa_totp_enabled : Optional Bool
  pub mfa_sms_otp_enabled : Optional Bool
  pub mfa_email_otp_enabled : Optional Bool

unfoldable pub auth_settings_update_json : AuthSettingsUpdate → Fields
auth_settings_update_json p = opt Json.boolean "microsoft_oidc_enabled" p.microsoft_oidc_enabled (
    opt Json.text "microsoft_oidc_tenant_id" p.microsoft_oidc_tenant_id (
      opt Json.text "microsoft_oidc_client_id" p.microsoft_oidc_client_id (
        opt Json.text "microsoft_oidc_client_secret" p.microsoft_oidc_client_secret (
          opt Json.boolean "google_oidc_enabled" p.google_oidc_enabled (
            opt Json.text "google_oidc_client_id" p.google_oidc_client_id (
              opt Json.text "google_oidc_client_secret" p.google_oidc_client_secret (
                opt Json.boolean "mfa_totp_enabled" p.mfa_totp_enabled (
                  opt Json.boolean "mfa_sms_otp_enabled" p.mfa_sms_otp_enabled (
                    opt Json.boolean "mfa_email_otp_enabled" p.mfa_email_otp_enabled
                      Fields.end)))))))))

unfoldable pub get_smtp_settings : Env → Endpoint
get_smtp_settings env = bare_endpoint (call env Method.get (codes "settings/smtp"))

unfoldable pub update_smtp_settings : Env → SmtpSettingsUpdate → Endpoint
update_smtp_settings env payload =
    json_endpoint (
      with_json (smtp_settings_update_json payload) (call env Method.patch (codes "settings/smtp")))

unfoldable pub test_smtp : Env → Text → Endpoint
test_smtp env to = json_endpoint (
    with_json (req "to" (Json.text to) Fields.end)
      (call env Method.post (codes "settings/smtp/test")))

unfoldable pub get_sms_settings : Env → Endpoint
get_sms_settings env = bare_endpoint (call env Method.get (codes "settings/sms"))

unfoldable pub get_sms_presets : Env → Endpoint
get_sms_presets env = bare_endpoint (call env Method.get (codes "settings/sms/presets"))

unfoldable pub update_sms_settings : Env → SmsSettingsUpdate → Endpoint
update_sms_settings env payload =
    json_endpoint
      (with_json (sms_settings_update_json payload) (call env Method.patch (codes "settings/sms")))

unfoldable pub get_org_info : Env → Endpoint
get_org_info env = bare_endpoint (call env Method.get (codes "settings/org-info"))

unfoldable pub update_org_info : Env → OrgInfo → Endpoint
update_org_info env payload =
    json_endpoint
      (with_json (org_info_json payload) (call env Method.patch (codes "settings/org-info")))

unfoldable pub list_system_backups : Env → Endpoint
list_system_backups env = bare_endpoint (call env Method.get (codes "settings/system-backup"))

unfoldable pub create_system_backup : Env → Endpoint
create_system_backup env =
    json_endpoint
      (record (call env Method.post (codes "settings/system-backup")) { timeout = 600000 })

unfoldable pub delete_system_backup : Env → Text → Endpoint
delete_system_backup env filename = void_endpoint (
    call env Method.delete
      (concat (codes "settings/system-backup/" ∷ encode_uri_component filename ∷ [])))

unfoldable pub test_sms : Env → Text → Text → Endpoint
test_sms env to content = json_endpoint (
    with_json (req "to" (Json.text to) (req "content" (Json.text content) Fields.end))
      (call env Method.post (codes "settings/sms/test")))

unfoldable pub get_auth_settings : Env → Endpoint
get_auth_settings env = bare_endpoint (call env Method.get (codes "settings/authorization"))

unfoldable pub update_auth_settings : Env → AuthSettingsUpdate → Endpoint
update_auth_settings env payload = json_endpoint (
    with_json (auth_settings_update_json payload)
      (call env Method.patch (codes "settings/authorization")))
