-- ===== src/Tests/Program.antt =====
-- What a run of the program computes with: a test that unfolds `program` opens all of it.
unfoldable pub program : Unit {0}
unfolding dkim.Bytes.Replace.replaced dkim.Bytes.find dkim.Bytes.get_all_after dkim.Bytes.replace
    dkim.Bytes.replace_slice dkim.Canonicalization.canonicalize_body_relaxed
    dkim.Canonicalization.canonicalize_body_simple dkim.Canonicalization.canonicalize_header_relaxed
    dkim.Canonicalization.canonicalize_header_simple
    dkim.Canonicalization.canonicalize_header_value_relaxed dkim.Canonicalization.to_string
    dkim.DkimResult.fail dkim.DkimResult.neutral dkim.DkimResult.pass dkim.Hash.canonicalize_body
    dkim.Hash.canonicalize_header dkim.Hash.compute_body_hash dkim.Hash.compute_headers_hash
    dkim.Hash.find_header dkim.Hash.get_body dkim.Hash.hash_with dkim.Hash.select_headers
    dkim.Hash.select_loop dkim.Hash.signature_line dkim.Hash.signed_lines dkim.Hash.truncate_to
    dkim.Header.add_tag dkim.Header.build dkim.Header.get_raw_tag dkim.Header.get_required_tag
    dkim.Header.get_tag dkim.Header.serialize dkim.Header.set_signed_headers dkim.Header.set_time
    dkim.Map.get dkim.Map.insert dkim.Parser.fws dkim.Parser.parse_canonicalization
    dkim.Parser.parse_hash_algo dkim.Parser.raw_tag_value dkim.Parser.tag_list dkim.Parser.tag_name
    dkim.Parser.tag_spec dkim.Parser.tag_value dkim.Prelude.beq dkim.Prelude.ends_with
    dkim.Prelude.starts_with dkim.PublicKey.check_key_version dkim.PublicKey.decode_key
    dkim.PublicKey.decode_rsa dkim.PublicKey.decode_ed25519 dkim.PublicKey.first
    dkim.PublicKey.from_tokio_resolver dkim.PublicKey.key_tags dkim.PublicKey.key_type_of
    dkim.PublicKey.lookup_txt dkim.PublicKey.retrieve_public_key dkim.PublicKey.to_lookup_error
    dkim.Sign.algo_name dkim.Sign.algo_of dkim.Sign.compute_body_hash dkim.Sign.compute_header_hash
    dkim.Sign.dkim_header_builder dkim.Sign.expiry_tag dkim.Sign.first_tags dkim.Sign.signature_of
    dkim.Sign.signed_header dkim.Sign.time_tag dkim.Str.Decimal.decimal
    dkim.Str.Decimal.int_to_string dkim.Str.Numbers.parse_i64 dkim.Str.Numbers.parse_usize
    dkim.Str.ascii_lower dkim.Str.eq_ignore_ascii_case dkim.Str.erase_all dkim.Str.join
    dkim.Str.space_width dkim.Str.space_width_back dkim.Str.split dkim.Str.strip
    dkim.Str.to_ascii_lowercase dkim.Str.trim dkim.Str.trim_end dkim.Str.trim_start
    dkim.Validate.check_domain dkim.Validate.check_expiry dkim.Validate.check_from
    dkim.Validate.check_query dkim.Validate.check_required dkim.Validate.check_version
    dkim.Validate.contains dkim.Validate.parse_tags dkim.Validate.tags_map
    dkim.Validate.validate_header dkim.Verify.decode_signature dkim.Verify.round
    dkim.Verify.verify_email dkim.Verify.verify_email_header dkim.Verify.verify_email_with_key
    dkim.Verify.verify_email_with_resolver dkim.Verify.verify_signature dkim.Verify.verify_with_key
    dkim.Verify.with_key dkim.Verify.with_resolver
program = tt
