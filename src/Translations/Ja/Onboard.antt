-- ===== src/Translations/Ja/Onboard.antt =====
-- The Japanese texts of the header and the wizard, lines 1844 to 1931 of frontend/src/i18n/translations.ts.
use lokinode.Translations.Table.{Table}
use mathlib.Core.List.{[], ◌∷◌}

unfoldable pub texts : Table
texts =
    ("header.help", "ヘルプ")
    ∷ ("header.settings", "設定")
    ∷ ("header.minimize", "最小化")
    ∷ ("header.close", "閉じる")
    ∷ ("header.update_available", "アップデート利用可能：{{version}}")
    ∷ ("node.errors.restart_failed", "再起動に失敗しました")
    ∷ ("node.errors.stop_failed", "停止に失敗しました")
    ∷ ("node.errors.start_timeout", "起動がタイムアウトしました — ログを確認してください。")
    ∷ ("node.errors.lock_timeout_title", "ロックがタイムアウトしました")
    ∷ ("node.errors.lock_timeout_desc", "デーモンがロック状態に戻りませんでした。ログを確認するかノードを停止してください。")
    ∷ ("node.errors.another_instance", "別のLokinodeウィンドウがすでに開いています。先にそちらを閉じてください。")
    ∷ ("node.errors.port_conflict", "ポートの競合 — 別のプロセスが同じポートを使用しています。")
    ∷ ("node.errors.rate_limited", "試行回数が多すぎます — しばらくお待ちください。")
    ∷ ("node.errors.daemon_not_ready", "デーモンの準備ができていません。")
    ∷ ("node.errors.missing_files", "ノードデータファイルが見つかりません — ディレクトリが移動または削除された可能性があります。")
    ∷ ("node.errors.corrupt_cert", "TLS証明書が破損しています — ノードの再作成が必要な場合があります。")
    ∷ ("node.errors.connection_refused", "ノードデーモンに接続できませんでした — ポートの競合を確認してください。")
    ∷ ("node.errors.timeout", "ノードデーモンが起動中にタイムアウトしました。")
    ∷ ("node.errors.neutrino_corrupted", "Neutrinoヘッダーが破損しています — タップしてクリアし再起動。")
    ∷ ("node.errors.recover_failed", "回復に失敗しました")
    ∷ ("node.status.no_wallet", "ウォレットが見つかりません")
    ∷ ("node.status.sub.no_wallet", "ウォレットデータベースが見つかりません。戻ってノードを再作成してください。")
    ∷ ("common.back_home", "ホームに戻る")
    ∷ ("language.label", "言語")
    ∷ ("onboard.back", "戻る")
    ∷ ("onboard.cancel", "キャンセル")
    ∷ ("onboard.next", "次へ")
    ∷ ("onboard.step_x_of_y", "ステップ {{x}} / {{y}}")
    ∷ ("onboard.node.title", "ノードに名前を付ける")
    ∷ ("onboard.node.desc", "ノードの名前を決め、環境の場所を選択してください。")
    ∷ ("onboard.node.alias", "ノードエイリアス")
    ∷ ("onboard.node.alias_ph", "マイ Lokinode")
    ∷ ("onboard.node.dir", "ノード環境")
    ∷ ("onboard.node.advanced", "高度なネットワーク設定")
    ∷ ("onboard.wallet.title", "ウォレットを選択")
    ∷ ("onboard.wallet.desc", "新規作成するか、既存のウォレットをインポートします。")
    ∷ ("onboard.wallet.create", "新しいウォレットを作成")
    ∷ ("onboard.wallet.create_sub", "全く新しい24単語のリカバリーフレーズを生成します。")
    ∷ ("onboard.wallet.restore", "既存のウォレットを復元")
    ∷ ("onboard.wallet.restore_sub", "24単語のシードまたは秘密鍵（16進数）から復元します。")
    ∷ ("onboard.password.title", "ウォレットパスワードを設定")
    ∷ ("onboard.password.desc", "ノードを起動するたびに入力します。")
    ∷ ("onboard.password.label", "パスワード")
    ∷ ("onboard.password.confirm", "パスワードの確認")
    ∷ ("onboard.password.warn", "パスワードの回復手段はありません。安全な場所に保管してください。")
    ∷ ("onboard.restore.title", "ウォレットを復元")
    ∷ ("onboard.restore.desc", "リカバリー情報を貼り付けてください — 外部に送信されることはありません。")
    ∷ ("onboard.restore.mnemonic", "シードフレーズ")
    ∷ ("onboard.restore.hex", "秘密鍵")
    ∷ ("onboard.restore.mnemonic_label", "24単語のリカバリーフレーズ")
    ∷ ("onboard.restore.hex_label", "秘密鍵（16進数）")
    ∷ ("onboard.review.title", "起動準備完了")
    ∷ ("onboard.review.desc", "最後に確認してから、電源を入れましょう。")
    ∷ ("onboard.review.sync_warn", "初回起動時はブロックチェーンと同期します。接続環境によって時間がかかる場合があります。")
    ∷ ("onboard.review.alias", "エイリアス")
    ∷ ("onboard.review.folder", "フォルダ")
    ∷ ("onboard.review.wallet", "ウォレット")
    ∷ ("onboard.review.wallet_create", "新規ウォレット")
    ∷ ("onboard.review.wallet_mnemonic", "シードフレーズから復元")
    ∷ ("onboard.review.wallet_hex", "16進数から復元")
    ∷ ("onboard.review.network", "ネットワーク")
    ∷ ("onboard.review.start", "ノードを起動")
    ∷ ("onboard.review.hint_create", "デーモンを起動し、リカバリーシードを生成してウォレットのロックを解除します。")
    ∷ ("onboard.review.hint_restore", "デーモンを起動してウォレットを復元します — 数分かかる場合があります。")
    ∷ ("onboard.seed.title", "リカバリーシードを保存")
    ∷ ("onboard.seed.desc", "この24単語でウォレットを復元できます。これを持っている人があなたのコインを所有できます。")
    ∷ ("onboard.seed.warn", "スクリーンショットを撮ったりオンラインに保存したりしないでください。紙に書いてオフラインで保管してください。")
    ∷ ("onboard.seed.ack", "24単語すべてを順番通りに書き留めました。")
    ∷ ("onboard.launch.verifying", "設定を確認中…")
    ∷ ("onboard.launch.verifying_sub", "デーモンの準備が整っているか確認しています。")
    ∷ ("onboard.launch.starting", "デーモンを起動中")
    ∷ ("onboard.launch.starting_sub", "flndプロセスを起動しています。")
    ∷ ("onboard.launch.waiting", "起動中")
    ∷ ("onboard.launch.waiting_sub", "ノードがオンラインになるのを待っています…")
    ∷ ("onboard.launch.reveal_title", "リカバリーシード")
    ∷ ("onboard.launch.reveal_desc", "今すぐ書き留めてください — これが唯一の表示機会です。")
    ∷ ("onboard.launch.continue_init", "ウォレットを作成")
    ∷ ("onboard.launch.initializing", "ウォレットを作成中")
    ∷ ("onboard.launch.initializing_sub", "ウォレットを暗号化してノードを準備しています。")
    ∷ ("onboard.launch.done", "完了")
    ∷ ("onboard.launch.error", "起動に失敗しました")
    ∷ ("onboard.launch.dismiss", "閉じる")
    ∷ ("onboard.errors.pwd_min", "パスワードは8文字以上である必要があります。")
    ∷ ("onboard.errors.pwd_match", "パスワードが一致しません。")
    ∷ ("onboard.errors.mnemonic_len", "フレーズは正確に24単語である必要があります。")
    ∷ ("onboard.errors.hex_required", "復元するには16進数の秘密鍵を入力してください。")
    ∷ ("onboard.errors.wallet_exists", "このフォルダにはすでにウォレットが存在します。空のフォルダを選択するか、そこに復元してください。")
    ∷ ("onboard.errors.seed_gen_failed", "リカバリーフレーズの生成に失敗しました。もう一度お試しください。")
    ∷ []
