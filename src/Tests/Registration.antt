-- ===== src/Tests/Registration.antt =====
-- The theorem on a request to register, applied to a concrete input.
use notification_server.Base.{◌≡◌, refl, [], nat_eq, string_eq}
use notification_server.Domain.Entities.{RegisteredUser}
use notification_server.Store.Tables.{select}
use notification_server.Store.World.{query, call}
use notification_server.Store.Buckets.{bucket_of}
use notification_server.Security.Hash.{hash, generate_otp}
use notification_server.Repository.Users.{get_user_by_email}
use notification_server.Repository.Verification.{
  create_user, save_verification_data, insert_staging, insert_verification,
}
use notification_server.Users.Register.{
  deliver_otp, register_user, register_new, send_verification_email,
}
use notification_server.Users.Otp.{save_otp}
use notification_server.Users.Signup.{IsStaged}
use notification_server.Http.RateLimiter.{allow_request}
use notification_server.Http.Content.{bound, check_content_body}
use notification_server.Http.Middleware.{
  recovered, request_id_of, add_request_id_and_time, check_content_type, panic_recovery_middleware,
  rate_limiter_middleware, allow, is_json,
}
use notification_server.Http.Handlers.{register_handler}
use notification_server.Http.Routes.{serve, chain, post_register}
use notification_server.Http.Text.{is_space}
use notification_server.Http.Created.{registration_created}
use notification_server.Tests.Accounts.{ann, with_db}
use notification_server.Tests.Memory.{memory}
use notification_server.Tests.Otps.{otps, crypto}
use notification_server.Tests.Samples.{new_codec}
use notification_server.Tests.Tokens.{jwt}
use notification_server.Tests.Web.{binders, open_site, moment, request}

cleo_created :
    (recovered
      (serve memory new_codec otps crypto jwt binders open_site moment post_register
        (request "")
        (with_db ann [])).0).status
    ≡ 201
unfolding serve chain add_request_id_and_time panic_recovery_middleware rate_limiter_middleware
    allow allow_request bucket_of check_content_type is_json check_content_body register_handler
    register_user register_new get_user_by_email create_user save_verification_data insert_staging
    insert_verification generate_otp hash deliver_otp send_verification_email save_otp query call
    select is_space
cleo_created = refl

registration_created_example :
    (u : RegisteredUser) × (binders.registered_user.should_bind_json 1_000_000 "7" ≡ bound u)
    × IsStaged
        (request_id_of "u1" "")
        u.email
        (serve memory new_codec otps crypto jwt binders open_site moment post_register
          (request "")
          (with_db ann [])).1.db
registration_created_example =
    registration_created memory new_codec otps crypto jwt binders open_site moment (request "")
      (with_db ann []) cleo_created
