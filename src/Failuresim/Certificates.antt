-- ===== src/Failuresim/Certificates.antt =====
-- internal/failuresim/transfer.go: the certificate under which rights move, its proof and its check.
use payment_platform.Common.{ℕ, str_eq, Bool, not, ◌&&◌, ◌||◌, List, [], ◌∷◌, ◌++◌, eqb_ℤ, ◌==◌}
use payment_platform.Common.Bytes.{utf8, big_endian}
use payment_platform.Ledger.Amount.{is_not_positive, to_string}
use payment_platform.Failuresim.Types.{TransferCertificate}
use payment_platform.Failuresim.Hashing.{Primitives, length_prefixed_all}
use payment_platform.Failuresim.World.{World}

-- `canonicalCertificatePayload`: every field but the proof.
unfoldable pub certificate_payload : TransferCertificate → List ℕ
certificate_payload c =
    utf8 "payment-platform/failuresim/transfer-certificate/v1\0"
    ++ (length_prefixed_all (
          c.transfer_id
          ∷ c.asset
          ∷ c.source_region
          ∷ c.destination_region
          ∷ to_string c.amount
          ∷ [])
        ++ (big_endian 8 c.source_epoch ++ big_endian 8 c.commit_sequence))

unfoldable pub certificate_proof : Primitives → List ℕ → TransferCertificate → ℕ
certificate_proof prim key c = prim.hmac_sha256 key (certificate_payload c)

-- `verifyCertificateLocked`
unfoldable pub verify_certificate : Primitives → World → TransferCertificate → Bool
verify_certificate prim w c =
    not (
      str_eq c.transfer_id ""
      || (not (str_eq c.asset w.asset)
          || (str_eq c.source_region ""
              || (str_eq c.destination_region ""
                  || (str_eq c.source_region c.destination_region
                      || (is_not_positive c.amount
                          || (c.source_epoch == 0 || c.commit_sequence == 0)))))))
    && certificate_proof prim w.certificate_key c == c.commit_proof

unfoldable pub equal_certificate : TransferCertificate → TransferCertificate → Bool
equal_certificate a b =
    str_eq a.transfer_id b.transfer_id
    && (str_eq a.asset b.asset
        && (str_eq a.source_region b.source_region
            && (str_eq a.destination_region b.destination_region
                && (eqb_ℤ a.amount b.amount
                    && (a.source_epoch == b.source_epoch
                        && (a.commit_sequence == b.commit_sequence
                            && a.commit_proof == b.commit_proof))))))
