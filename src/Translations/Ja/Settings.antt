-- ===== src/Translations/Ja/Settings.antt =====
-- The Japanese texts of the main page and the settings, lines 1654 to 1747 of frontend/src/i18n/translations.ts.
use lokinode.Translations.Table.{Table}
use mathlib.Core.List.{[], ◌∷◌}

unfoldable pub texts : Table
texts =
    ("main.title", "ノードの設定")
    ∷ ("main.data_dir", "ノード環境")
    ∷ ("main.starting", "ノードを起動中…")
    ∷ ("main.start", "ノードを起動")
    ∷ ("main.select_dir_title", "ノード環境を選択")
    ∷ ("main.loading_default", "デフォルトディレクトリを読み込み中...")
    ∷ ("main.existing.badge", "既存ノードを検出")
    ∷ ("main.existing.desc", "このフォルダにFlokicoinノード環境が見つかりました。そのまま起動できます。")
    ∷ ("main.existing.start", "タップして起動")
    ∷ ("main.configure", "ノード設定を構成")
    ∷ ("main.errors.alias", "ノードエイリアスは必須です")
    ∷ ("main.errors.alias_invalid", "無効なエイリアス名")
    ∷ ("main.errors.start_failed", "起動に失敗しました")
    ∷ ("main.errors.config_error", "設定エラー")
    ∷ ("main.errors.node_error", "ノードエラー")
    ∷ ("main.errors.not_a_node", "このフォルダに既存のノード環境が見つかりません")
    ∷ ("main.errors.dir_error", "フォルダの選択エラー")
    ∷ ("main.default_alias", "MyLokinode")
    ∷ ("config.alias_default_hint", "デフォルト名を使用します")
    ∷ ("main.create_new", "新規ノードを作成")
    ∷ ("main.create_new_sub", "新しい環境を初期化します。")
    ∷ ("main.open_existing", "既存ノードを開く")
    ∷ ("main.open_existing_sub", "既存のノード環境から再開します。")
    ∷ ("main.browse_folder", "フォルダを選択")
    ∷ ("main.status.offline", "ノードオフライン")
    ∷ ("main.status.starting", "起動中")
    ∷ ("main.power_hint", "タップして起動")
    ∷ ("main.power_hint_starting", "デーモンを初期化中...")
    ∷ ("config.alias", "ノードエイリアス")
    ∷ ("config.alias_ph", "例：MyLokinode")
    ∷ ("config.network", "ネットワーク設定")
    ∷ ("config.rest_cors", "REST CORS")
    ∷ ("config.rpc_listen", "RPCリッスン")
    ∷ ("config.rest_listen", "RESTリッスン")
    ∷ ("settings.title", "設定")
    ∷ ("security.title", "セキュリティ")
    ∷ ("security.section", "ウォレットパスワードの変更")
    ∷ ("security.current_pwd", "現在のパスワード")
    ∷ ("security.new_pwd", "新しいパスワード")
    ∷ ("security.new_pwd_ph", "8文字以上")
    ∷ ("security.confirm_pwd", "新しいパスワード（確認）")
    ∷ ("security.update", "パスワードを更新")
    ∷ ("security.updating", "更新中…")
    ∷ ("security.update_sub", "ウォレットを再暗号化中です。しばらくお待ちください。")
    ∷ ("security.updated", "パスワードを更新しました")
    ∷ ("security.updated_ok", "パスワードが正常に更新されました")
    ∷ ("security.failed", "更新に失敗しました")
    ∷ ("security.stop_prompt", "パスワードを更新するにはノードを停止する必要があります。今すぐ停止して更新しますか？")
    ∷ ("security.update_failed", "更新に失敗しました")
    ∷ ("security.error.timeout", "ノードがロック状態になるのを待機中にタイムアウトしました")
    ∷ ("validation.required", "必須項目です")
    ∷ ("validation.min8", "8文字以上入力してください")
    ∷ ("validation.no_match", "一致しません")
    ∷ ("validation.dir_required", "環境の場所を指定してください")
    ∷ ("validation.dir_not_empty", "環境は空または新規である必要があります")
    ∷ ("validation.invalid_cors", "有効なURLまたは * を入力してください")
    ∷ ("validation.invalid_listen", "無効な形式（例：0.0.0.0:10005）")
    ∷ ("network.public_node", "パブリックノード")
    ∷ ("network.public_node_sub", "外部からのP2P接続を受け入れ、ネットワークにアナウンスします")
    ∷ ("network.restart_hint", "次回再起動時に適用されます")
    ∷ ("network.restart_required", "ネットワーク設定の変更を適用するには再起動が必要です。")
    ∷ ("network.restart_btn", "適用して再起動")
    ∷ ("network.restarting", "再起動中...")
    ∷ ("network.restart.confirm", "再起動を確認しますか？")
    ∷ ("network.restart.confirm_action", "もう一度クリックして再起動を確認")
    ∷ ("network.restart_sub", "ノードはまもなくオンラインに戻ります。")
    ∷ ("network.errors.invalid_config", "設定に問題があります")
    ∷ ("network.public_ip", "パブリックIPアドレス")
    ∷ ("network.public_ip_sub", "ピアにアナウンスするIPアドレス。省略した場合はデフォルトポート5521が使用されます。")
    ∷ ("network.public_ip_ph", "例：203.0.113.42 または 203.0.113.42:5521")
    ∷ ("network.ip_error", "無効なIPアドレス")
    ∷ ("network.ip_missing", "IPが未設定 — ノードはリッスンしますが外部から発見できません")
    ∷ ("network.group.identity", "ノードID")
    ∷ ("network.group.visibility", "パブリック公開")
    ∷ ("network.group.endpoints", "エンドポイントとCORS")
    ∷ ("network.group.credentials", "認証情報")
    ∷ ("network.cors", "REST CORSオリジン")
    ∷ ("network.cors_sub", "REST APIへのアクセスを許可するブラウザのオリジン。空欄にするとCORSが無効になります。")
    ∷ ("network.cors_ph", "例：http://localhost:3000")
    ∷ ("network.pubkey", "ノード公開鍵")
    ∷ ("network.grpc", "gRPCエンドポイント")
    ∷ ("network.rest", "RESTエンドポイント")
    ∷ ("network.data_dir", "ノード環境")
    ∷ ("network.macaroon", "管理者Macaroon")
    ∷ ("network.tls", "TLS証明書")
    ∷ ("network.hex_locked", "ロック解除後に利用可能")
    ∷ ("receive.title", "FLCを受け取る")
    ∷ ("receive.new_addr", "新しいアドレスを生成")
    ∷ ("receive.copied", "コピーしました")
    ∷ ("receive.copy_desc", "アドレスをクリップボードにコピーしました")
    ∷ ("receive.payment_received", "入金を受け取りました")
    ∷ ("receive.addr_type", "アドレスタイプ")
    ∷ ("receive.segwit", "SegWit")
    ∷ ("receive.taproot", "Taproot")
    ∷ []
