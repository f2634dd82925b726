-- ===== src/Config/Example.antt =====
-- A Vault with one secret for every path.
use enterprise_middleware_go.Prelude.{String, inr}
use enterprise_middleware_go.Dict.{empty, put}
use enterprise_middleware_go.Config.{Secret, text, Vault}

abbrev pub pem : String
pem = "-----BEGIN KEY-----\nAA\n-----END KEY-----\n"

unfoldable pub secret : Secret
unfolding empty put
secret =
    put
      (put
        (put
          (put
            (put
              (put
                (put
                  (put
                    (put
                      (put (put (put empty "host" (text "db")) "port" (text "5432")) "db"
                        (text "app"))
                      "user" (text "u"))
                    "password" (text "p"))
                  "brokers" (text "kafka:9092"))
                "private_pem" (text pem))
              "public_pem" (text pem))
            "user_service_addr" (text ":50051"))
          "logger_service_addr" (text ":50052"))
        "hosts" (text "c:9042"))
      "keyspace" (text "audit")

abbrev pub one_secret : Vault String
one_secret = record {
  get_secret = λ mount path. inr secret;
  read_error = λ path e. e;
  not_pem = "jwt keys from vault do not look like PEM";
}
