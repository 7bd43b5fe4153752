-- ===== src/CasFactories/Decomposed.antt =====
-- pkg/filesystem/virtual/decomposed_cas_directory_factory.go: directories that are Directory
-- messages of their own.
use bb_clientd.Prelude.{[], ◌∷◌}
use bb_clientd.CasDirectory.{Context, create_self, resolve_handle}
use bb_clientd.CasFactories.{Calls, HandleResolver, directory, reported, loaded}

module _ {W M Digest Dir Leaf Symlink E : Type 0}
    (calls : Calls W M Digest Dir Leaf Symlink E) where
  -- The context that NewCASDirectory() is given: LookupDirectory() is that of the factory.
  unfoldable pub decomposed_context : Digest → Context W M Digest Dir Leaf Symlink
  decomposed_context digest = record {
    get_directory_contents = λ w. loaded calls (directory digest) (calls.get_directory digest w);
    log_error = λ e w. calls.log (directory digest) (reported e) w;
    lookup_directory = λ other. calls.as_stateless_directory other (0 ∷ []);
    lookup_file = calls.lookup_file;
    new_digest_from_proto = calls.new_digest_from_proto digest;
    lookup_symlink = calls.lookup_symlink;
    as_linkable_leaf = calls.as_linkable_leaf digest;
    as_stateless_directory = calls.as_stateless_directory digest;
    is_component = calls.is_component;
  }

  -- createDirectory()
  unfoldable pub create_decomposed : Digest → Dir × HandleResolver W Dir Leaf
  create_decomposed digest =
      (create_self (decomposed_context digest), resolve_handle (decomposed_context digest))

  -- LookupDirectory()
  unfoldable pub lookup_decomposed : Digest → Dir
  lookup_decomposed digest = (create_decomposed digest).0

  -- resolve()
  unfoldable pub resolve_decomposed : Digest → HandleResolver W Dir Leaf
  resolve_decomposed digest r w = (create_decomposed digest).1 r w
